-- ===== src/Network/Cookies/Withheld.antt =====
-- A session of cookie_jar.rs that is being committed stays so, whatever else is asked of the jars.
use audio_down_core.Base.{
  ℕ, ◌+◌, ap, Bool, true, false, not, Option, some, List, [], ◌∷◌, ◌≡◌, ◌≢◌, sym, ◌∙◌, subst,
  Result, arith, inl, inr, Bool-cases, Option-cases, All, All-filter, map, leb, ltb, length,
}
use Prim.Native.Nat.{Ordering, compare}
use audio_down_core.Base.Map.{get, insert, adjust, remove}
use audio_down_core.Base.Order.{is_eq}
use audio_down_core.Base.Sort.{IsDistinct}
use audio_down_core.Base.Stateful.{Keeps, holds-guarded, holds-lifted}
use audio_down_core.Base.Text.{Text}
use audio_down_core.Network.Cookies.Session.{
  Url, Library, CookieJarError, CookieJarBinding, CookieJarSession, active, committing,
  max_sessions, max_session_ttl, capacity_reached, invalid_binding, binding_mismatch, busy,
  binding_beq, state_is_active, origin_denied, parse_origin, normalize_origins, purpose_mismatch,
}
use audio_down_core.Network.Cookies.Store.{enforce_store_limits, capture_all}
use audio_down_core.Network.Cookies.Jars.{
  Sessions, is_target, retain_live, pick, insert_session, create_with_store, create, cancel,
  binding_of, finish_from, finish_refresh, capture_response, cookie_header, promotion_snapshot,
  commit_session, begin_refresh_commit, are_targets, is_login, refresh_identity,
}
use audio_down_core.Network.Cookies.Bounds.{live_session-Keeps}
use audio_down_core.Network.Cookies.Requests.{
  Request, creating, cancelling, capturing, sending, reading, promoting, beginning, finishing,
  serve, serve_all,
}

-- The request is neither the end of that ID's commit, nor draws that ID for a new session.
abbrev pub Leaves : ℕ → Request → Type 0
Leaves id (creating binding ttl now draws) = All (λ d. d ≢ id) draws
Leaves id (finishing other retryable) = other ≢ id
Leaves id _ = Unit

module _ {Store : Type 0} (id : ℕ) where
  -- No session of that ID is active.
  unfoldable pub IsWithheld : Sessions Store → Type 0
  IsWithheld s = All (λ e. e.0 ≡ id → e.1.state ≢ active) s

  IsWithheld-remove : (k : ℕ) (s : Sessions Store) → IsWithheld s → IsWithheld (remove compare k s)
  unfolding IsWithheld remove
  IsWithheld-remove k [] h = tt
  IsWithheld-remove k (e ∷ s) h = ground (arith, IsWithheld-remove k s h.1)

  IsWithheld-adjust :
      (k : ℕ) (session : CookieJarSession Store) (s : Sessions Store)
      → (k ≡ id → session.state ≢ active)
      → IsWithheld s
      → IsWithheld (adjust compare k session s)
  unfolding IsWithheld adjust
  IsWithheld-adjust k session [] p h = tt
  IsWithheld-adjust k session (e ∷ s) p h = elim (Bool-cases (is_eq (compare k e.0))) [
    | inl here ↦ ground (arith, (λ (q : e.0 ≡ id). p (ground arith)), h.1)
    | inr missed ↦ ground (arith, h.0, IsWithheld-adjust k session s p h.1)
  ]

  IsWithheld-insert :
      (k : ℕ) (session : CookieJarSession Store) (s : Sessions Store)
      → k ≢ id
      → IsWithheld s
      → IsWithheld (insert compare k session s)
  unfolding IsWithheld insert
  IsWithheld-insert k session [] p h = ((λ q. absurd (p q)), tt)
  IsWithheld-insert k session (e ∷ s) p h =
      ground (arith, (λ (q : k ≡ id). p q), h.0, IsWithheld-insert k session s p h.1)

  pub found-not_active :
      (session : CookieJarSession Store) (s : Sessions Store)
      → get compare id s ≡ some session
      → IsWithheld s
      → session.state ≢ active
  unfolding IsWithheld
  found-not_active session [] e h = cc
  found-not_active session (x ∷ s) e h = elim (Bool-cases (is_eq (compare id x.0))) [
    | inl here ↦
        let same : x.1 ≡ session = ground arith in
        subst (λ (y : CookieJarSession Store). y.state ≢ active) same (h.0 (ground arith))
    | inr missed ↦ found-not_active session s (ground arith) h.1
  ]

  IsWithheld-of_keys :
      (s : Sessions Store) → All (λ k. compare id k ≢ Ordering.eq) (map (λ e. e.0) s) → IsWithheld s
  unfolding IsWithheld
  IsWithheld-of_keys [] d = tt
  IsWithheld-of_keys (e ∷ s) d = ((λ q. absurd (d.0 (ground (arith, q)))), IsWithheld-of_keys s d.1)

  -- A commit that has begun withholds its session, where no two sessions have one ID.
  pub IsWithheld-committing :
      (session : CookieJarSession Store) (s : Sessions Store)
      → session.state ≢ active
      → IsDistinct compare (map (λ e. e.0) s)
      → IsWithheld (adjust compare id session s)
  unfolding IsWithheld adjust
  IsWithheld-committing session [] p d = tt
  IsWithheld-committing session (e ∷ s) p d = elim (Bool-cases (is_eq (compare id e.0))) [
    | inl here ↦
        let same : id ≡ e.0 = ground arith in
        rw here (
          (λ q. p),
          IsWithheld-of_keys s
              (subst (λ k. All (λ j. compare k j ≢ Ordering.eq) (map (λ e. e.0) s)) (sym same) d.0),
        )
    | inr missed ↦
        rw missed ((λ q. absurd (ground (arith, q))), IsWithheld-committing session s p d.1)
  ]

  live-IsWithheld : (now : ℕ) (s : Sessions Store) → IsWithheld s → IsWithheld (retain_live now s)
  unfolding IsWithheld
  live-IsWithheld now s h =
      All-filter (λ e. e.0 ≡ id → e.1.state ≢ active) (λ e. ltb now e.1.expires_at) s h

  picked-ne :
      (draws : List ℕ) (s : Sessions Store) (j : ℕ)
      → pick draws s ≡ some j
      → All (λ d. d ≢ id) draws
      → j ≢ id
  unfolding pick
  picked-ne [] s j h n = cc
  picked-ne (d ∷ ds) s j h n = elim (Option-cases (get compare d s)) [
    | inl free ↦ λ q. n.0 (ground arith)
    | inr (session, e) ↦ picked-ne ds s j (ground arith) n.1
  ]

  create_with_store-IsWithheld :
      (binding : CookieJarBinding) (ttl : ℕ) (store : Store) (now : ℕ) (draws : List ℕ)
      → All (λ d. d ≢ id) draws
      → Keeps IsWithheld (create_with_store binding ttl store now draws)
  unfolding create_with_store insert_session
  create_with_store-IsWithheld binding ttl store now draws n s h =
      let live = retain_live now s in
      let fewer = live-IsWithheld now s h in
      holds-guarded IsWithheld (ltb max_session_ttl ttl) invalid_binding _ s h (λ _.
        holds-guarded IsWithheld (leb max_sessions (length live)) capacity_reached _ live fewer
          (λ room. elim (Option-cases (pick draws live)) [
            | inl none_left ↦
                subst (λ (o : Option ℕ). IsWithheld (insert_session o fresh live).1) (sym none_left)
                  fewer
            | inr (j, e) ↦
                subst (λ (o : Option ℕ). IsWithheld (insert_session o fresh live).1) (sym e)
                  (IsWithheld-insert j fresh live (picked-ne draws live j e n) fewer)
          ]))
    where
      fresh : CookieJarSession Store
      fresh = record { binding = binding; expires_at = now + ttl; store = store; state = active }

  cancel-IsWithheld :
      (now k : ℕ) (binding : CookieJarBinding) → Keeps IsWithheld (cancel now k binding)
  unfolding cancel
  cancel-IsWithheld now k binding =
      live_session-Keeps IsWithheld now k _ (IsWithheld-remove k) (λ session s e h.
        holds-guarded IsWithheld (not (binding_beq session.binding binding)) binding_mismatch _ s h
          (λ _. IsWithheld-remove k s h))

  binding_of-IsWithheld : (now k : ℕ) → Keeps IsWithheld (binding_of now k)
  unfolding binding_of
  binding_of-IsWithheld now k =
      live_session-Keeps IsWithheld now k _ (IsWithheld-remove k) (λ session s e h.
        holds-guarded IsWithheld (not (state_is_active session.state)) busy _ s h (λ _. h))

  finish_refresh-IsWithheld :
      (k : ℕ) (retryable : Bool) → k ≢ id → Keeps IsWithheld (finish_refresh k retryable)
  unfolding finish_refresh finish_from
  finish_refresh-IsWithheld k retryable n s h = elim (Option-cases (get compare k s)) [
    | inl missing ↦ subst (λ o. IsWithheld (finish_from k retryable o s).1) (sym missing) h
    | inr (session, e) ↦
        subst (λ o. IsWithheld (finish_from k retryable o s).1) (sym e) (finished session retryable)
  ]
    where
      finished :
          (session : CookieJarSession Store) (b : Bool)
          → IsWithheld (finish_from k b (some session) s).1
      finished session true =
          IsWithheld-adjust k (record session { state = active }) s (λ q. absurd (n q)) h
      finished session false = IsWithheld-remove k s h

module _ {Store Raw Secret : Type 0} (library : Library Store Raw)
    (snapshot : Store → List Text → Result Secret CookieJarError) (id : ℕ) where
  -- An active session that is found is not the one withheld.
  other-session :
      (k : ℕ) (session : CookieJarSession Store) (s : Sessions Store)
      → get compare k s ≡ some session
      → not (state_is_active session.state) ≡ false
      → IsWithheld id s
      → k ≢ id
  other-session k session s e idle h q =
      found-not_active id session s (ap (λ j. get compare j s) (sym q) ∙ e) h (ground arith)

  capture_response-IsWithheld :
      (now k : ℕ) (binding : CookieJarBinding) (url : Url) (headers : List (Option Text))
      → Keeps (IsWithheld id) (capture_response library now k binding url headers)
  unfolding capture_response
  capture_response-IsWithheld now k binding url headers =
      let P : Sessions Store → Type 0 = IsWithheld id in
      live_session-Keeps P now k _ (IsWithheld-remove id k) (λ session s e h.
        holds-guarded P (not (binding_beq session.binding binding)) binding_mismatch _ s h (λ _.
          holds-guarded P (not (state_is_active session.state)) busy _ s h (λ idle.
            holds-guarded P (not (is_target library binding (parse_origin library url.origin)))
              origin_denied _ s h
              (λ _.
                holds-lifted P (capture_all library url headers session.store) _ s h (λ captured _.
                  holds-lifted P (enforce_store_limits library captured.0) _ s h (λ _ limit.
                    IsWithheld-adjust id k (record session { store = captured.0 }) s
                      (λ q. absurd (other-session k session s e idle h q)) h))))))

  cookie_header-IsWithheld :
      (now k : ℕ) (binding : CookieJarBinding) (url : Url)
      → Keeps (IsWithheld id) (cookie_header library now k binding url)
  unfolding cookie_header
  cookie_header-IsWithheld now k binding url =
      let P : Sessions Store → Type 0 = IsWithheld id in
      live_session-Keeps P now k _ (IsWithheld-remove id k) (λ session s e h.
        holds-guarded P (not (binding_beq session.binding binding)) binding_mismatch _ s h (λ _.
          holds-guarded P (not (state_is_active session.state)) busy _ s h (λ _.
            holds-guarded P (not (is_target library binding (parse_origin library url.origin)))
              origin_denied _ s h (λ _. h))))

  promotion_snapshot-IsWithheld :
      (now k : ℕ) (binding : CookieJarBinding) (selected : List Text)
      → Keeps (IsWithheld id) (promotion_snapshot library snapshot now k binding selected)
  unfolding promotion_snapshot
  promotion_snapshot-IsWithheld now k binding selected s h =
      let P : Sessions Store → Type 0 = IsWithheld id in
      holds-guarded P (not (is_login library binding.purpose)) purpose_mismatch _ s h (λ _.
        holds-lifted P (normalize_origins library selected) _ s h (λ origins _.
          holds-guarded P (not (are_targets library binding origins)) origin_denied _ s h (λ _.
            live_session-Keeps P now k _ (IsWithheld-remove id k)
              (λ session v e p.
                holds-guarded P (not (binding_beq session.binding binding)) binding_mismatch _ v p
                  (λ _.
                    holds-guarded P (not (state_is_active session.state)) busy _ v p
                      (λ _. holds-lifted P (snapshot session.store origins) _ v p (λ _ _. p))))
              s h)))

  commit_session-IsWithheld :
      (k : ℕ) (binding : CookieJarBinding) (origins : List Text) (session : CookieJarSession Store)
      (v : Sessions Store)
      → IsWithheld id v
      → IsWithheld id (commit_session library snapshot k binding origins session v).1
  unfolding commit_session
  commit_session-IsWithheld k binding origins session v p =
      let P : Sessions Store → Type 0 = IsWithheld id in
      holds-guarded P (not (binding_beq session.binding binding)) binding_mismatch _ v p (λ _.
        holds-guarded P (not (state_is_active session.state)) busy _ v p (λ _.
          holds-lifted P (refresh_identity library snapshot binding.purpose) _ v p (λ _ _.
            holds-lifted P (snapshot session.store origins) _ v p (λ _ _.
              IsWithheld-adjust id k (record session { state = committing }) v (λ q. λ a. cc) p))))

  begin_refresh_commit-IsWithheld :
      (now k : ℕ) (binding : CookieJarBinding) (selected : List Text)
      → Keeps (IsWithheld id) (begin_refresh_commit library snapshot now k binding selected)
  unfolding begin_refresh_commit
  begin_refresh_commit-IsWithheld now k binding selected s h =
      let P : Sessions Store → Type 0 = IsWithheld id in
      holds-lifted P (normalize_origins library selected) _ s h (λ origins _.
        holds-guarded P (not (are_targets library binding origins)) origin_denied _ s h (λ _.
          live_session-Keeps P now k (commit_session library snapshot k binding origins)
            (IsWithheld-remove id k)
            (λ session v e p. commit_session-IsWithheld k binding origins session v p) s h))

  serve-IsWithheld :
      (request : Request) (s : Sessions Store)
      → Leaves id request
      → IsWithheld id s
      → IsWithheld id (serve library snapshot request s)
  unfolding serve create
  serve-IsWithheld (creating binding ttl now draws) s n h =
      create_with_store-IsWithheld id binding ttl library.new_store now draws n s h
  serve-IsWithheld (cancelling now k binding) s n h = cancel-IsWithheld id now k binding s h
  serve-IsWithheld (capturing now k binding url headers) s n h =
      capture_response-IsWithheld now k binding url headers s h
  serve-IsWithheld (sending now k binding url) s n h =
      cookie_header-IsWithheld now k binding url s h
  serve-IsWithheld (reading now k) s n h = binding_of-IsWithheld id now k s h
  serve-IsWithheld (promoting now k binding selected) s n h =
      promotion_snapshot-IsWithheld now k binding selected s h
  serve-IsWithheld (beginning now k binding selected) s n h =
      begin_refresh_commit-IsWithheld now k binding selected s h
  serve-IsWithheld (finishing k retryable) s n h = finish_refresh-IsWithheld id k retryable n s h

  pub serve_all-IsWithheld :
      (requests : List Request) (s : Sessions Store)
      → All (Leaves id) requests
      → IsWithheld id s
      → IsWithheld id (serve_all library snapshot requests s)
  unfolding serve_all
  serve_all-IsWithheld [] s n h = h
  serve_all-IsWithheld (request ∷ rest) s n h =
      serve_all-IsWithheld rest (serve library snapshot request s) n.1
        (serve-IsWithheld request s n.0 h)
