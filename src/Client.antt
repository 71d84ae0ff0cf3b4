-- ===== src/Client.antt =====
-- pkg/generated/clientset/versioned/typed/community/v1alpha1/stagedbindingpolicy.go: the methods of the
-- typed client, as the chains of calls that build their requests. The builder itself and what it sends are
-- client-go's (`rest.Interface`).

pub mod Decode
pub mod Timeout
use kubestellar_workload_sta.Base.{ℕ, Option, none, some, List, [], ◌∷◌, Str, codes}
use Prim.Native.Nat.{◌*◌, ◌%◌, ◌^◌}
use kubestellar_workload_sta.Api.{Kinds, StagedBindingPolicy}

-- The option types of apimachinery, of which this file reads the time-out (an int64, by its residue modulo
-- 2 ^ 64) and sets the watch flag.
pub record Options : Type 1 where
  pub GetOptions : Type 0
  pub ListOptions : Type 0
  pub CreateOptions : Type 0
  pub UpdateOptions : Type 0
  pub DeleteOptions : Type 0
  pub PatchOptions : Type 0
  pub PatchType : Type 0
  pub timeout_seconds : ListOptions → Option ℕ
  pub set_watch : ListOptions → ListOptions

-- `time.Duration(*opts.TimeoutSeconds) * time.Second`, and the zero value without a time-out.
unfoldable pub timeout_duration : Option ℕ → ℕ
timeout_duration none = 0
timeout_duration (some seconds) = (seconds * 1000000000) % 2 ^ 64

module _ (K : Kinds) (O : Options) where
  pub data Verb : Type 0 where
    get_verb post_verb put_verb delete_verb : Verb
    patch_verb : O.PatchType → Verb

  pub data Parameters : Type 0 where
    get_options : O.GetOptions → Parameters
    list_options : O.ListOptions → Parameters
    create_options : O.CreateOptions → Parameters
    update_options : O.UpdateOptions → Parameters
    patch_options : O.PatchOptions → Parameters

  pub data Body : Type 0 where
    policy_body : StagedBindingPolicy K → Body
    delete_options : O.DeleteOptions → Body
    data_body : Str → Body

  -- A call of the request builder.
  pub data Call : Type 0 where
    resource : Str → Call
    named : Str → Call
    sub_resource : List Str → Call
    versioned_params : Parameters → Call
    timeout : ℕ → Call
    body : Body → Call

  -- How a request is sent: `Do(ctx).Into(result)`, `Do(ctx).Error()` or `Watch(ctx)`.
  pub data Sending : Type 0 where
    do_into do_error do_watch : Sending

  pub record Request : Type 0 where
    pub verb : Verb
    pub calls : List Call
    pub sending : Sending

  -- The methods of `StagedBindingPolicyInterface` with their arguments.
  pub data Method : Type 0 where
    get : Str → O.GetOptions → Method
    list : O.ListOptions → Method
    watch : O.ListOptions → Method
    create : StagedBindingPolicy K → O.CreateOptions → Method
    update : StagedBindingPolicy K → O.UpdateOptions → Method
    update_status : StagedBindingPolicy K → O.UpdateOptions → Method
    delete : Str → O.DeleteOptions → Method
    delete_collection : O.DeleteOptions → O.ListOptions → Method
    patch : Str → O.PatchType → Str → O.PatchOptions → List Str → Method

  abbrev pub stagedbindingpolicies : Call
  stagedbindingpolicies = resource (codes "stagedbindingpolicies")

  unfoldable pub request : Method → Request
  request (get name options) = record {
    verb = get_verb;
    calls = stagedbindingpolicies ∷ named name ∷ versioned_params (get_options options) ∷ [];
    sending = do_into;
  }
  request (list opts) = record {
    verb = get_verb;
    calls =
        stagedbindingpolicies
        ∷ versioned_params (list_options opts)
        ∷ timeout (timeout_duration (O.timeout_seconds opts))
        ∷ [];
    sending = do_into;
  }
  request (watch opts) = record {
    verb = get_verb;
    calls =
        stagedbindingpolicies
        ∷ versioned_params (list_options (O.set_watch opts))
        ∷ timeout (timeout_duration (O.timeout_seconds opts))
        ∷ [];
    sending = do_watch;
  }
  request (create policy opts) = record {
    verb = post_verb;
    calls =
        stagedbindingpolicies
        ∷ versioned_params (create_options opts)
        ∷ body (policy_body policy)
        ∷ [];
    sending = do_into;
  }
  request (update policy opts) = record {
    verb = put_verb;
    calls =
        stagedbindingpolicies
        ∷ named policy.metadata.name
        ∷ versioned_params (update_options opts)
        ∷ body (policy_body policy)
        ∷ [];
    sending = do_into;
  }
  request (update_status policy opts) = record {
    verb = put_verb;
    calls =
        stagedbindingpolicies
        ∷ named policy.metadata.name
        ∷ sub_resource (codes "status" ∷ [])
        ∷ versioned_params (update_options opts)
        ∷ body (policy_body policy)
        ∷ [];
    sending = do_into;
  }
  request (delete name opts) = record {
    verb = delete_verb;
    calls = stagedbindingpolicies ∷ named name ∷ body (delete_options opts) ∷ [];
    sending = do_error;
  }
  request (delete_collection opts list_opts) = record {
    verb = delete_verb;
    calls =
        stagedbindingpolicies
        ∷ versioned_params (list_options list_opts)
        ∷ timeout (timeout_duration (O.timeout_seconds list_opts))
        ∷ body (delete_options opts)
        ∷ [];
    sending = do_error;
  }
  request (patch name pt contents opts subresources) = record {
    verb = patch_verb pt;
    calls =
        stagedbindingpolicies
        ∷ named name
        ∷ sub_resource subresources
        ∷ versioned_params (patch_options opts)
        ∷ body (data_body contents)
        ∷ [];
    sending = do_into;
  }
