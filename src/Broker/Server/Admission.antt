-- ===== src/Broker/Server/Admission.antt =====
-- Which requests reach their handlers, and what an accepted provisioning has left in the stores.
use helm_broker.Common.{
  ℕ, String, ◌≡◌, ◌∙◌, sym, Bool, true, false, not, ◌&&◌, ◌||◌, ◌⊎◌, inl, inr, none, some, List,
  Error, error_text, Result, ok, ◌==◌, is_empty, arith, if◌then◌else◌, Bool-cases, Option-cases,
  Result-cases,
}
use helm_broker.Model.Addons.{AddonPlan}
use helm_broker.Model.Operations.{OperationId}
use helm_broker.Broker.Backend.{Backend}
use helm_broker.Broker.Action.{Outcome, done, failed, panicked}
use helm_broker.Broker.Memory.{Stores, Driver, memory}
use helm_broker.Broker.Provision as Provisioning
use helm_broker.Broker.Provision.{ProvisionResponse, ProvisioningInput, provision}
use helm_broker.Broker.Provision.Task.{IsPending, provision-IsPending}
use helm_broker.Broker.Server.Http.{
  HttpRequest, HttpResponse, Texts, Body, ProvisionRequestDto, get_value, contains_text,
  parsed_body, provision_success, validate_provision, write_response, write_error_response,
  empty_object,
}
use helm_broker.Broker.Server.Context.{
  OsbContext, osb_context, version_description, identity_description, async_description,
  validate_api_version, validate_originating_identity, osb_context_middleware,
  require_async_middleware,
}
use helm_broker.Broker.Server.{
  Endpoint, provision_action, deprovision_action, bind_action, provision_instance, act, serve,
}
use helm_broker.Broker.Server.Replies.{
  responded, nothing, provisioning, provision_request, provision_reply, accepted,
}

-- JSON of the objects that the server writes does not fail.
abbrev pub Marshals : Texts → Type 0
Marshals texts = (object : Body) → (t : String) × (texts.marshal object ≡ ok t)

-- The operations that take long.
abbrev pub is_asynchronous : Endpoint → Bool
is_asynchronous provision_action = true
is_asynchronous deprovision_action = true
is_asynchronous bind_action = true
is_asynchronous _ = false

-- The headers name the right version of the API, and an identity of Kubernetes or none.
abbrev pub has_context : HttpRequest → Bool
has_context r =
    (get_value "X-Broker-Api-Version" r.headers == "2.14")
    && (is_empty (get_value "X-Broker-Api-Originating-Identity" r.headers)
        || contains_text "kubernetes" (get_value "X-Broker-Api-Originating-Identity" r.headers))

-- The request has the right version of the API, an identity of Kubernetes or none, and, where the operation is
-- asynchronous, says that the client accepts that.
abbrev pub admits : Endpoint → HttpRequest → Bool
admits endpoint r =
    has_context r
    && (not (is_asynchronous endpoint) || (get_value "accepts_incomplete" r.query == "true"))

module _ (texts : Texts) (marshals : Marshals texts) where
  code-write_response :
      (status : ℕ) (object : Body) → (write_response texts status object).code ≡ status
  unfolding write_response
  code-write_response status object = ground (arith, marshals object)

  code-write_error_response :
      (status : ℕ) (message desc : String)
      → (write_error_response texts status message desc).code ≡ status
  unfolding write_error_response
  code-write_error_response status message desc = code-write_response status _

module _ (texts : Texts) {S : Type 0} (b : Backend S) where
  -- A request that is admitted comes to its handler.
  serve-admitted :
      (order : List AddonPlan → List AddonPlan) (new_id : Result OperationId) (endpoint : Endpoint)
      (r : HttpRequest) (s : S)
      → admits endpoint r ≡ true
      → serve texts b order new_id endpoint r s
        ≡ act texts b order new_id endpoint r (osb_context r) s
  unfolding serve osb_context_middleware require_async_middleware validate_api_version
      validate_originating_identity osb_context
  serve-admitted order new_id endpoint r s h = ground arith

  not_async :
      (order : List AddonPlan → List AddonPlan) (new_id : Result OperationId) (endpoint : Endpoint)
      (r : HttpRequest) (s : S)
      → validate_api_version (osb_context r) ≡ none
      → validate_originating_identity (osb_context r) ≡ none
      → admits endpoint r ≡ false
      → serve texts b order new_id endpoint r s
        ≡ (responded (write_error_response texts 422 "AsyncRequired" async_description) nothing, s)
  unfolding serve osb_context_middleware require_async_middleware validate_api_version
      validate_originating_identity osb_context
  not_async order new_id endpoint r s p q h = ground arith

  -- A context that is refused is not the one that the broker asks for, and one that is not refused is.
  code-context :
      (r : HttpRequest) (s : S)
      → ((e : Error) × (validate_api_version (osb_context r) ≡ some e))
        ⊎ ((e : Error) × (validate_originating_identity (osb_context r) ≡ some e))
      → ◌≡◌ {A = ℕ} (if has_context r then 422 else 412) 412
  unfolding validate_api_version validate_originating_identity osb_context
  code-context r s (inl (e, p)) = ground (arith, p)
  code-context r s (inr (e, p)) = ground (arith, p)

  code-async :
      (r : HttpRequest)
      → validate_api_version (osb_context r) ≡ none
      → validate_originating_identity (osb_context r) ≡ none
      → ◌≡◌ {A = ℕ} (if has_context r then 422 else 412) 422
  unfolding validate_api_version validate_originating_identity osb_context
  code-async r p q = ground (arith, p, q)

  -- A request that is not admitted is answered with 412 if its headers are not those that the broker asks for, and with
  -- 422 if they are, so that it is the client that does not accept an asynchronous answer, whatever the operation
  -- is: no task is started and the state is as it was.
  pub serve-refused :
      (order : List AddonPlan → List AddonPlan) (new_id : Result OperationId) (endpoint : Endpoint)
      (r : HttpRequest) (s : S)
      → Marshals texts
      → admits endpoint r ≡ false
      → (response : HttpResponse) × (serve texts b order new_id endpoint r s
          ≡ (responded response nothing, s))
        × (response.code ≡ (if has_context r then 422 else 412))
  unfolding serve osb_context_middleware require_async_middleware
  serve-refused order new_id endpoint r s marshals h =
      elim (Option-cases (validate_api_version (osb_context r))) [
        | inr (e, p) ↦ (
          write_error_response texts 412 (error_text e) version_description,
          ground arith,
          code-write_error_response texts marshals 412 (error_text e) version_description
              ∙ sym (code-context r s (inl (e, p))),
        )
        | inl p ↦ elim (Option-cases (validate_originating_identity (osb_context r))) [
          | inr (e, q) ↦ (
            write_error_response texts 412 (error_text e) identity_description,
            ground arith,
            code-write_error_response texts marshals 412 (error_text e) identity_description
                ∙ sym (code-context r s (inr (e, q))),
          )
          | inl q ↦ (
            write_error_response texts 422 "AsyncRequired" async_description,
            not_async order new_id endpoint r s p q h,
            code-write_error_response texts marshals 422 "AsyncRequired" async_description
                ∙ sym (code-async r p q),
          )
        ]
      ]

-- The answer of the handler of `provisionAction` that has started a task.
provision_reply-started :
    (texts : Texts) (o : Outcome Provisioning.Answer) (response : HttpResponse)
    (input : ProvisioningInput)
    → provision_reply texts o ≡ responded response (provisioning input)
    → (answer : ProvisionResponse) × (o ≡ done (answer, some input))
      × (response ≡ (
          if answer.async
          then accepted texts provision_success answer.operation_key
          else write_response texts 200 empty_object))
unfolding provision_reply
provision_reply-started texts (failed x) response input h = absurd (ground arith)
provision_reply-started texts panicked response input h = absurd (ground arith)
provision_reply-started texts (done (answer, none)) response input h = absurd (ground arith)
provision_reply-started texts (done (answer, some i)) response input h =
    (answer, ground arith, ground arith)

module _ (texts : Texts) {S : Type 0} (b : Backend S) where
  provision_instance-started :
      (new_id : Result OperationId) (ctx : OsbContext) (r : HttpRequest) (s t : S)
      (response : HttpResponse) (input : ProvisioningInput)
      → provision_instance texts b new_id ctx r s ≡ (responded response (provisioning input), t)
      → (dto : ProvisionRequestDto) × (parsed_body texts.parse_provision r.body ≡ ok dto)
        × (validate_provision dto ≡ none)
        × (answer : ProvisionResponse) × (provision b new_id ctx.broker_namespace
              (provision_request (get_value "instance_id" r.vars) dto)
              s
            ≡ (done (answer, some input), t))
        × (response ≡ (
            if answer.async
            then accepted texts provision_success answer.operation_key
            else write_response texts 200 empty_object))
  unfolding provision_instance
  provision_instance-started new_id ctx r s t response input h =
      elim (Result-cases (parsed_body texts.parse_provision r.body)) [
        | inl (x, p) ↦ absurd (ground arith)
        | inr (dto, p) ↦ elim (Option-cases (validate_provision dto)) [
          | inr (x, q) ↦ absurd (ground arith)
          | inl q ↦
              let run =
                provision b new_id ctx.broker_namespace
                  (provision_request (get_value "instance_id" r.vars) dto) s in
              let (answer, o, e) =
                provision_reply-started texts run.0 response input (ground arith) in
              (dto, p, q, answer, ground arith, e)
        ]
      ]

module _ (texts : Texts) (d : Driver) where
  -- On the in-memory stores: a request to provision that starts a task was admitted and has a body that parses
  -- and is valid; its operation is stored, in progress, under the instance of the path, with the instance; and it
  -- is answered with 202 and the operation's id.
  pub serve-IsPending :
      (order : List AddonPlan → List AddonPlan) (new_id : Result OperationId) (r : HttpRequest)
      (s t : Stores) (response : HttpResponse) (input : ProvisioningInput)
      → Marshals texts
      → serve texts (memory d) order new_id provision_action r s
        ≡ (responded response (provisioning input), t)
      → (admits provision_action r ≡ true)
        × (dto : ProvisionRequestDto) × (parsed_body texts.parse_provision r.body ≡ ok dto)
        × (validate_provision dto ≡ none)
        × IsPending d (provision_request (get_value "instance_id" r.vars) dto) input t
        × (response ≡ write_response texts 202 (provision_success (some input.operation_id)))
  unfolding act
  serve-IsPending order new_id r s t response input marshals h =
      elim (Bool-cases (admits provision_action r)) [
        | inr e ↦
            let (x, p, q) =
              serve-refused texts (memory d) order new_id provision_action r s marshals e in
            absurd (ground arith)
        | inl e ↦
            let handled =
              sym (serve-admitted texts (memory d) order new_id provision_action r s e) ∙ h in
            let (dto, p, q, answer, run, said) =
              provision_instance-started texts (memory d) new_id (osb_context r) r s t response
                input handled in
            let (pending, asked) =
              provision-IsPending d new_id (osb_context r).broker_namespace
                (provision_request (get_value "instance_id" r.vars) dto) s run in
            (e, dto, p, q, pending, ground arith)
      ]
