-- ===== src/Content/Platform/Answers.antt =====
-- What comes out of a call to a plugin, in crates/audiodown-content/src/router.rs.
use audio_down_core.Base.{
  ◌≡◌, ◌≢◌, ◌⊎◌, true, false, none, some, refl, ◌==◌, eq_iff, inl, inr, subst, Option, ok, err,
  Result-cases, Option-cases, Bool-cases, arith,
}
use audio_down_core.Base.Text.{Text, text, text_eq}
use audio_down_core.PluginApi.Error.{
  PluginErrorCode, PluginErrorData, ContentContractError, validate_error_data,
}
use audio_down_core.PluginApi.Rpc.{JsonRpcResponse, JsonRpcError}
use audio_down_core.PluginApi.Content.{ContentMethod, Checked}
use audio_down_core.Content.Candidate.{ContentCandidate}
use audio_down_core.Content.Platform.{
  ContentJson, Invoker, ContentInvokeError, FailureData, is_malformed, invoke_failure,
  invalid_response_failure, safe_failure_summary, invalid_response, failure_of, decode_response,
  decode_result, attempt,
}

-- A summary that the router wrote for a failed call, or for an error code.
abbrev pub IsFixed : FailureData → Type 0
IsFixed f =
    ((e : ContentInvokeError) × (f ≡ invoke_failure e))
    ⊎ ((code : PluginErrorCode) × (f ≡ record { code = code; summary = safe_failure_summary code }))

-- Not JSON-RPC 2.0, or with neither or both of a result and an error.
abbrev pub IsMalformed : {Value : Type 0} → JsonRpcResponse Value → Type 0
IsMalformed r =
    (r.jsonrpc ≢ text "2.0")
    ⊎ (((r.result ≡ none) × (r.error ≡ none)) ⊎ ((r.result ≢ none) × (r.error ≢ none)))

-- A well-formed answer: either a result or an error.
IsMalformed-cases :
    {Value : Type 0} (r : JsonRpcResponse Value)
    → ((is_malformed r ≡ true) × IsMalformed r)
      ⊎ (((is_malformed r ≡ false) × (r.jsonrpc ≡ text "2.0"))
          × (((e : JsonRpcError Value) × (r.result ≡ none) × (r.error ≡ some e))
              ⊎ ((v : Value) × (r.result ≡ some v) × (r.error ≡ none))))
IsMalformed-cases r = elim (Bool-cases (r.jsonrpc == text "2.0")) [
  | inr other ↦ inl (ground arith, inl (λ e. ground (arith, eq_iff r.jsonrpc (text "2.0"))))
  | inl version ↦
      let same = (eq_iff r.jsonrpc (text "2.0")).0 version in
      elim (Option-cases r.result) [
        | inl no_result ↦ elim (Option-cases r.error) [
          | inl no_error ↦ inl (ground arith, inr (inl (no_result, no_error)))
          | inr (e, error) ↦ inr ((ground arith, same), inl (e, no_result, error))
        ]
        | inr (v, result) ↦ elim (Option-cases r.error) [
          | inl no_error ↦ inr ((ground arith, same), inr (v, result, no_error))
          | inr (e, error) ↦ inl (ground arith, inr (inr ((λ a. cc), (λ a. cc))))
        ]
      ]
]

module _ {Value : Type 0} (json : ContentJson Value) where
  -- The error object carries a code that serde reads and its validation accepts.
  abbrev pub Says : JsonRpcError Value → PluginErrorCode → Type 0
  Says e code =
      (value : Value) × (d : PluginErrorData) × (e.data_value ≡ some value)
      × (json.error_from_value value ≡ some d)
      × (validate_error_data d ≡ ok tt)
      × (d.code ≡ code)

  -- The failure that an error object stands for: by its own code, or else an invalid response.
  abbrev pub IsFailureOf : JsonRpcError Value → FailureData → Type 0
  IsFailureOf e f =
      ((code : PluginErrorCode) × Says e code
        × (f ≡ record { code = code; summary = safe_failure_summary code }))
      ⊎ (((code : PluginErrorCode) → Says e code → ⊥) × (f ≡ invalid_response_failure))

  failure_of-IsFailureOf : (e : JsonRpcError Value) → IsFailureOf e (failure_of json e)
  unfolding failure_of
  failure_of-IsFailureOf e = elim (Option-cases e.data_value) [
    | inl absent ↦ inr ((λ code s. no_value absent code s), ground arith)
    | inr (value, present) ↦ elim (Option-cases (json.error_from_value value)) [
      | inl unread ↦ inr ((λ code s. no_error present unread code s), ground arith)
      | inr (d, read) ↦ elim (Result-cases (validate_error_data d)) [
        | inl (u, valid) ↦ inl (d.code, (value, d, present, read, valid, refl), ground arith)
        | inr (u, wrong) ↦ inr ((λ code s. no_code present read wrong code s), ground arith)
      ]
    ]
  ]
    where
      no_value : e.data_value ≡ none → (code : PluginErrorCode) → Says e code → ⊥
      no_value absent code (v, d, there, read, valid, own) = cc

      no_error :
          {value : Value}
          → e.data_value ≡ some value
          → json.error_from_value value ≡ none
          → (code : PluginErrorCode) → Says e code
          → ⊥
      no_error present unread code (v, d, there, read, valid, own) =
          ground (arith, present, unread, there, read)

      no_code :
          {value : Value} {d : PluginErrorData} {u : ContentContractError}
          → e.data_value ≡ some value
          → json.error_from_value value ≡ some d
          → validate_error_data d ≡ err u
          → (code : PluginErrorCode) → Says e code
          → ⊥
      no_code present read wrong code (v, d', there, read', valid, own) =
          ground (arith, present, read, wrong, there, read', valid)

  module _ {R : Type 0} (from_value : Value → Option R) (validate : R → Checked)
      (invoke : Invoker Value) (request_id : Text) (method : ContentMethod) (params : Value)
      (c : ContentCandidate) where
    pub attempt-validated :
        {r : R}
        → attempt json from_value validate invoke request_id method params c ≡ ok r
        → validate r ≡ ok tt
    unfolding attempt decode_result
    attempt-validated h = ground arith

    -- Why a call fails, and what its failure then is: there was no answer; or the answer is malformed,
    -- carries an error, or carries a result that serde does not read or its validation refuses.
    pub data IsFailure (f : FailureData) : Type 0 where
      unanswered :
          (e : ContentInvokeError)
          → invoke request_id c method params ≡ err e
          → f ≡ invoke_failure e
          → IsFailure f
      malformed :
          (response : JsonRpcResponse Value)
          → invoke request_id c method params ≡ ok response
          → IsMalformed response
          → f ≡ invalid_response_failure
          → IsFailure f
      refused :
          (response : JsonRpcResponse Value) (e : JsonRpcError Value)
          → invoke request_id c method params ≡ ok response
          → response.jsonrpc ≡ text "2.0"
          → response.result ≡ none
          → response.error ≡ some e
          → IsFailureOf e f
          → IsFailure f
      unusable :
          (response : JsonRpcResponse Value) (value : Value)
          → invoke request_id c method params ≡ ok response
          → response.jsonrpc ≡ text "2.0"
          → response.result ≡ some value
          → response.error ≡ none
          → ((result : R) → from_value value ≡ some result → validate result ≢ ok tt)
          → f ≡ invalid_response_failure
          → IsFailure f

    value-IsFailure :
        (response : JsonRpcResponse Value) (value : Value) {f : FailureData}
        → attempt json from_value validate invoke request_id method params c ≡ err f
        → invoke request_id c method params ≡ ok response
        → is_malformed response ≡ false
        → response.jsonrpc ≡ text "2.0"
        → response.result ≡ some value
        → response.error ≡ none
        → IsFailure f
    unfolding attempt decode_result decode_response
    value-IsFailure response value h replied proper version there no_error =
        elim (Option-cases (from_value value)) [
          | inl unread ↦
              unusable response value replied version there no_error (λ result read. absurd (cc))
                (ground arith)
          | inr (r, read) ↦ elim (Result-cases (validate r)) [
            | inl (u, valid) ↦ absurd (ground arith)
            | inr (u, wrong) ↦
                unusable response value replied version there no_error
                  (λ result again valid. ground (arith, again, valid)) (ground arith)
          ]
        ]

    pub attempt-IsFailure :
        {f : FailureData}
        → attempt json from_value validate invoke request_id method params c ≡ err f
        → IsFailure f
    attempt-IsFailure {f} h = elim (Result-cases (invoke request_id c method params)) [
      | inr (e, failed) ↦ unanswered e failed (unfold attempt in ground arith)
      | inl (response, replied) ↦ elim (IsMalformed-cases response) [
        | inl (wrong, how) ↦
            malformed response replied how
              (unfold attempt decode_result decode_response in ground arith)
        | inr ((proper, version), inl (e, no_result, error)) ↦
            let said : failure_of json e ≡ f =
              unfold attempt decode_result decode_response in ground arith in
            refused response e replied version no_result error
              (subst (IsFailureOf e) said (failure_of-IsFailureOf e))
        | inr ((proper, version), inr (value, there, no_error)) ↦
            value-IsFailure response value h replied proper version there no_error
      ]
    ]

    IsFixed-of_failure : {f : FailureData} → IsFailure f → IsFixed f
    unfolding invoke_failure
    IsFixed-of_failure (unanswered e _ same) = inl (e, same)
    IsFixed-of_failure (malformed _ _ _ same) = inl (invalid_response, same)
    IsFixed-of_failure (refused _ _ _ _ _ _ (inl (code, _, same))) = inr (code, same)
    IsFixed-of_failure (refused _ _ _ _ _ _ (inr (_, same))) = inl (invalid_response, same)
    IsFixed-of_failure (unusable _ _ _ _ _ _ _ same) = inl (invalid_response, same)

    pub attempt-IsFixed :
        {f : FailureData}
        → attempt json from_value validate invoke request_id method params c ≡ err f
        → IsFixed f
    attempt-IsFixed h = IsFixed-of_failure (attempt-IsFailure h)
