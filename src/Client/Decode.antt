-- ===== src/Client/Decode.antt =====
-- The requests of the typed client, read back: which method sends them.
use kubestellar_workload_sta.Base.{
  ◌≡◌, refl, Option, none, some, List, [], ◌∷◌, codes, str_eq, ◌==◌, if◌then◌else◌, arith,
}
use kubestellar_workload_sta.Api.{Kinds}
use kubestellar_workload_sta.Client.{
  Options, Verb, get_verb, post_verb, put_verb, delete_verb, patch_verb, get_options, list_options,
  create_options, update_options, patch_options, policy_body, delete_options, data_body, Call,
  resource, named, sub_resource, versioned_params, timeout, body, Sending, do_into, do_error,
  do_watch, Request, Method, get, list, watch, create, update, update_status, delete,
  delete_collection, patch, request,
}

module _ (K : Kinds) (O : Options) where
  -- The method of a request, by its verb and the calls after the one that names the resource.
  abbrev decode_get : Sending K O → List (Call K O) → Option (Method K O)
  decode_get do_into (named n ∷ versioned_params (get_options o) ∷ []) = some (get n o)
  decode_get do_into (versioned_params (list_options o) ∷ timeout t ∷ []) = some (list o)
  decode_get do_watch (versioned_params (list_options o) ∷ timeout t ∷ []) = some (watch o)
  decode_get _ _ = none

  abbrev decode_put : List (Call K O) → Option (Method K O)
  decode_put (named n ∷ versioned_params (update_options o) ∷ body (policy_body p) ∷ []) =
      if n == p.metadata.name then some (update p o) else none
  decode_put
        (named n
          ∷ sub_resource (s ∷ [])
          ∷ versioned_params (update_options o)
          ∷ body (policy_body p)
          ∷ []) =
      if n == p.metadata.name
      then if s == codes "status" then some (update_status p o) else none
      else none
  decode_put _ = none

  abbrev decode_delete : List (Call K O) → Option (Method K O)
  decode_delete (named n ∷ body (delete_options o) ∷ []) = some (delete n o)
  decode_delete (versioned_params (list_options l) ∷ timeout t ∷ body (delete_options o) ∷ []) =
      some (delete_collection o l)
  decode_delete _ = none

  abbrev decode_calls : Verb K O → Sending K O → List (Call K O) → Option (Method K O)
  decode_calls get_verb sending calls = decode_get sending calls
  decode_calls post_verb do_into (versioned_params (create_options o) ∷ body (policy_body p) ∷ []) =
      some (create p o)
  decode_calls put_verb do_into calls = decode_put calls
  decode_calls delete_verb do_error calls = decode_delete calls
  decode_calls (patch_verb pt) do_into
        (named n ∷ sub_resource s ∷ versioned_params (patch_options o) ∷ body (data_body d) ∷ []) =
      some (patch n pt d o s)
  decode_calls _ _ _ = none

  abbrev pub decode : Request K O → Option (Method K O)
  decode r = elim r.calls [
    | [] ↦ none
    | call ∷ calls ↦ elim call [
      | resource name ↦
          if name == codes "stagedbindingpolicies"
          then decode_calls r.verb r.sending calls
          else none
      | _ ↦ none
    ]
  ]

  -- The method as its request tells it: the options of a watch have the watch flag.
  abbrev sent : Method K O → Method K O
  sent (watch o) = watch (O.set_watch o)
  sent m = m

  -- A request tells its method and the arguments of it: reading it back gives the method that built it,
  -- with the watch flag set in the options of a watch.
  pub decode-request : (m : Method K O) → decode (request K O m) ≡ some (sent m)
  unfolding request str_eq
  decode-request (get n o) = refl
  decode-request (list o) = refl
  decode-request (watch o) = refl
  decode-request (create p o) = refl
  decode-request (update p o) = ground arith
  decode-request (update_status p o) = ground arith
  decode-request (delete n o) = refl
  decode-request (delete_collection o l) = refl
  decode-request (patch n pt d o s) = refl
