-- ===== src/Network/Cookies/Bounds.antt =====
-- The limits that the temporary cookie jars keep, whatever is asked of them.
use audio_down_core.Base.{
  ℕ, ◌+◌, ◌≤◌, ◌<◌, Bool, true, false, not, Option, none, some, List, ◌≡◌, refl, sym, subst, Result,
  ok, err, arith, inl, inr, ◌⊎◌, Bool-cases, Option-cases, All, length, leb, ltb, length-filter,
}
use Prim.Native.Nat.{compare}
use audio_down_core.Base.Map.{
  get, adjust, remove, values, length-insert-le, length-adjust, length-remove-le, All-insert,
  All-adjust, All-remove, All-get, All-filter_entries,
}
use audio_down_core.Base.Stateful.{Keeps, ◌>>=◌, resume, holds-guarded, holds-lifted}
use audio_down_core.Base.Text.{Text}
use audio_down_core.Network.Cookies.Session.{
  Url, Library, CookieJarError, CookieJarBinding, CookieJarSession, not_found, expired,
  max_sessions, max_session_ttl, capacity_reached, invalid_binding, binding_mismatch, busy,
  binding_beq, state_is_active, origin_denied, parse_origin, normalize_origins, purpose_mismatch,
  active, committing,
}
use audio_down_core.Network.Cookies.Store.{enforce_store_limits, capture_all}
use audio_down_core.Network.Cookies.Jars.{
  is_target, Sessions, JarMethod, retain_live, pick, insert_session, create_with_store, live_from,
  live_session, cancel, binding_of, finish_from, finish_refresh, capture_response, cookie_header,
  promotion_snapshot, commit_session, begin_refresh_commit, are_targets, is_login, refresh_identity,
}

module _ {Store : Type 0} where
  -- A session is found alive, or the call fails, and an expired one is gone.
  pub live_session-cases :
      (now id : ℕ) (sessions : Sessions Store)
      → ((session : CookieJarSession Store) × (get compare id sessions ≡ some session)
          × (now < session.expires_at)
          × (live_session now id sessions ≡ (ok session, sessions)))
        ⊎ ((live_session now id sessions ≡ (err not_found, sessions))
            ⊎ (live_session now id sessions ≡ (err expired, remove compare id sessions)))
  unfolding live_session live_from
  live_session-cases now id sessions = by_found (get compare id sessions) refl
    where
      by_found :
          (o : Option (CookieJarSession Store))
          → get compare id sessions ≡ o
          → ((session : CookieJarSession Store) × (o ≡ some session)
              × (now < session.expires_at)
              × (live_from now id o sessions ≡ (ok session, sessions)))
            ⊎ ((live_from now id o sessions ≡ (err not_found, sessions))
                ⊎ (live_from now id o sessions ≡ (err expired, remove compare id sessions)))
      by_found none e = inr (inl refl)
      by_found (some session) e = elim (Bool-cases (leb session.expires_at now)) [
        | inl over ↦ inr (inr (ground arith))
        | inr alive ↦ inl (session, refl, ground arith, ground arith)
      ]

  pub live_session-Keeps :
      {B : Type 0} (P : Sessions Store → Type 0) (now id : ℕ)
      (f : CookieJarSession Store → JarMethod Store B)
      → ((sessions : Sessions Store) → P sessions → P (remove compare id sessions))
      → ((session : CookieJarSession Store) (sessions : Sessions Store)
          → get compare id sessions ≡ some session
          → P sessions
          → P (f session sessions).1)
      → Keeps P (live_session now id >>= f)
  live_session-Keeps P now id f hr hf sessions h = elim (live_session-cases now id sessions) [
    | inl (session, e, alive, same) ↦
        subst (λ r. P (resume f r.0 r.1).1) (sym same) (hf session sessions e h)
    | inr other ↦ elim other [
      | inl missing ↦ subst (λ r. P (resume f r.0 r.1).1) (sym missing) h
      | inr over ↦ subst (λ r. P (resume f r.0 r.1).1) (sym over) (hr sessions h)
    ]
  ]

module _ {Store Raw : Type 0} (library : Library Store Raw) where
  -- Every jar was within the limits when it was last written.
  abbrev pub IsWithinLimits : CookieJarSession Store → Type 0
  IsWithinLimits session = enforce_store_limits library session.store ≡ ok tt

  unfoldable pub IsBounded : Sessions Store → Type 0
  IsBounded sessions = (length sessions ≤ max_sessions) × All IsWithinLimits (values sessions)

  IsBounded-remove :
      (id : ℕ) (sessions : Sessions Store)
      → IsBounded sessions
      → IsBounded (remove compare id sessions)
  unfolding IsBounded
  IsBounded-remove id sessions h = (
    ground (arith, length-remove-le compare id sessions),
    All-remove compare IsWithinLimits id sessions h.1,
  )

  IsBounded-adjust :
      (id : ℕ) (session : CookieJarSession Store) (sessions : Sessions Store)
      → IsWithinLimits session
      → IsBounded sessions
      → IsBounded (adjust compare id session sessions)
  unfolding IsBounded
  IsBounded-adjust id session sessions limit h = (
    ground (arith, length-adjust compare id session sessions),
    All-adjust compare IsWithinLimits id session sessions limit h.1,
  )

  found-IsWithinLimits :
      (id : ℕ) (session : CookieJarSession Store) (sessions : Sessions Store)
      → get compare id sessions ≡ some session
      → IsBounded sessions
      → IsWithinLimits session
  unfolding IsBounded
  found-IsWithinLimits id session sessions e h =
      All-get compare IsWithinLimits id session sessions e h.1

  pub cancel-IsBounded :
      (now id : ℕ) (binding : CookieJarBinding) → Keeps IsBounded (cancel now id binding)
  unfolding cancel
  cancel-IsBounded now id binding =
      live_session-Keeps IsBounded now id _ (IsBounded-remove id) (λ session sessions e h.
        holds-guarded IsBounded (not (binding_beq session.binding binding)) binding_mismatch _
          sessions h (λ _. IsBounded-remove id sessions h))

  pub capture_response-IsBounded :
      (now id : ℕ) (binding : CookieJarBinding) (url : Url) (headers : List (Option Text))
      → Keeps IsBounded (capture_response library now id binding url headers)
  unfolding capture_response
  capture_response-IsBounded now id binding url headers =
      live_session-Keeps IsBounded now id _ (IsBounded-remove id) (λ session sessions e h.
        holds-guarded IsBounded (not (binding_beq session.binding binding)) binding_mismatch _
          sessions h
          (λ _.
            holds-guarded IsBounded (not (state_is_active session.state)) busy _ sessions h (λ _.
              holds-guarded IsBounded
                (not (is_target library binding (parse_origin library url.origin))) origin_denied _
                sessions h
                (λ _.
                  holds-lifted IsBounded (capture_all library url headers session.store) _ sessions
                    h
                    (λ captured _.
                      holds-lifted IsBounded (enforce_store_limits library captured.0) _ sessions h
                        (λ _ limit.
                          IsBounded-adjust id (record session { store = captured.0 }) sessions limit
                            h))))))

  pub cookie_header-IsBounded :
      (now id : ℕ) (binding : CookieJarBinding) (url : Url)
      → Keeps IsBounded (cookie_header library now id binding url)
  unfolding cookie_header
  cookie_header-IsBounded now id binding url =
      live_session-Keeps IsBounded now id _ (IsBounded-remove id) (λ session sessions e h.
        holds-guarded IsBounded (not (binding_beq session.binding binding)) binding_mismatch _
          sessions h
          (λ _.
            holds-guarded IsBounded (not (state_is_active session.state)) busy _ sessions h (λ _.
              holds-guarded IsBounded
                (not (is_target library binding (parse_origin library url.origin))) origin_denied _
                sessions h (λ _. h))))

  pub binding_of-IsBounded : (now id : ℕ) → Keeps IsBounded (binding_of now id)
  unfolding binding_of
  binding_of-IsBounded now id =
      live_session-Keeps IsBounded now id _ (IsBounded-remove id) (λ session sessions e h.
        holds-guarded IsBounded (not (state_is_active session.state)) busy _ sessions h (λ _. h))

  pub finish_refresh-IsBounded :
      (id : ℕ) (retryable : Bool) → Keeps IsBounded (finish_refresh id retryable)
  unfolding finish_refresh finish_from
  finish_refresh-IsBounded id retryable sessions h = elim (Option-cases (get compare id sessions)) [
    | inl missing ↦ subst (λ o. IsBounded (finish_from id retryable o sessions).1) (sym missing) h
    | inr (session, e) ↦
        subst (λ o. IsBounded (finish_from id retryable o sessions).1) (sym e)
          (finished-IsBounded session retryable e)
  ]
    where
      finished-IsBounded :
          (session : CookieJarSession Store) (b : Bool)
          → get compare id sessions ≡ some session
          → IsBounded (finish_from id b (some session) sessions).1
      finished-IsBounded session true e =
          IsBounded-adjust id (record session { state = active }) sessions
            (found-IsWithinLimits id session sessions e h) h
      finished-IsBounded session false e = IsBounded-remove id sessions h

  pub create_with_store-IsBounded :
      (binding : CookieJarBinding) (ttl : ℕ) (store : Store) (now : ℕ) (draws : List ℕ)
      → enforce_store_limits library store ≡ ok tt
      → Keeps IsBounded (create_with_store binding ttl store now draws)
  unfolding IsBounded create_with_store insert_session
  create_with_store-IsBounded binding ttl store now draws limit sessions h =
      let live = retain_live now sessions in
      let fewer : IsBounded live = (
        ground (
          arith,
          length-filter (λ (e : ℕ × CookieJarSession Store). ltb now e.1.expires_at) sessions,
        ),
        All-filter_entries compare IsWithinLimits
            (λ (e : ℕ × CookieJarSession Store). ltb now e.1.expires_at) sessions h.1,
      ) in
      holds-guarded IsBounded (ltb max_session_ttl ttl) invalid_binding _ sessions h (λ _.
        holds-guarded IsBounded (leb max_sessions (length live)) capacity_reached _ live fewer
          (λ room. inserted-IsBounded live fewer (ground arith) (pick draws live)))
    where
      session : CookieJarSession Store
      session = record { binding = binding; expires_at = now + ttl; store = store; state = active }

      inserted-IsBounded :
          (live : Sessions Store)
          → IsBounded live
          → length live < max_sessions
          → (o : Option ℕ) → IsBounded (insert_session o session live).1
      inserted-IsBounded live fewer room none = fewer
      inserted-IsBounded live fewer room (some id) = (
        ground (arith, length-insert-le compare id session live),
        All-insert compare IsWithinLimits id session live limit fewer.1,
      )

  module _ {Secret : Type 0} (snapshot : Store → List Text → Result Secret CookieJarError) where
    pub promotion_snapshot-IsBounded :
        (now id : ℕ) (binding : CookieJarBinding) (selected : List Text)
        → Keeps IsBounded (promotion_snapshot library snapshot now id binding selected)
    unfolding promotion_snapshot
    promotion_snapshot-IsBounded now id binding selected sessions h =
        holds-guarded IsBounded (not (is_login library binding.purpose)) purpose_mismatch _ sessions
          h
          (λ _.
            holds-lifted IsBounded (normalize_origins library selected) _ sessions h (λ origins _.
              holds-guarded IsBounded (not (are_targets library binding origins)) origin_denied _
                sessions h
                (λ _.
                  live_session-Keeps IsBounded now id _ (IsBounded-remove id)
                    (λ session v e k.
                      holds-guarded IsBounded (not (binding_beq session.binding binding))
                        binding_mismatch _ v k
                        (λ _.
                          holds-guarded IsBounded (not (state_is_active session.state)) busy _ v k
                            (λ _.
                              holds-lifted IsBounded (snapshot session.store origins) _ v k
                                (λ _ _. k))))
                    sessions h)))

    commit_session-IsBounded :
        (id : ℕ) (binding : CookieJarBinding) (origins : List Text)
        (session : CookieJarSession Store) (v : Sessions Store)
        → get compare id v ≡ some session
        → IsBounded v
        → IsBounded (commit_session library snapshot id binding origins session v).1
    unfolding commit_session
    commit_session-IsBounded id binding origins session v e k =
        holds-guarded IsBounded (not (binding_beq session.binding binding)) binding_mismatch _ v k
          (λ _. holds-guarded IsBounded (not (state_is_active session.state)) busy _ v k (λ _.
            holds-lifted IsBounded (refresh_identity library snapshot binding.purpose) _ v k (λ _ _.
              holds-lifted IsBounded (snapshot session.store origins) _ v k (λ _ _.
                IsBounded-adjust id (record session { state = committing }) v
                  (found-IsWithinLimits id session v e k) k))))

    pub begin_refresh_commit-IsBounded :
        (now id : ℕ) (binding : CookieJarBinding) (selected : List Text)
        → Keeps IsBounded (begin_refresh_commit library snapshot now id binding selected)
    unfolding begin_refresh_commit
    begin_refresh_commit-IsBounded now id binding selected sessions h =
        holds-lifted IsBounded (normalize_origins library selected) _ sessions h (λ origins _.
          holds-guarded IsBounded (not (are_targets library binding origins)) origin_denied _
            sessions h
            (λ _.
              live_session-Keeps IsBounded now id
                (commit_session library snapshot id binding origins) (IsBounded-remove id)
                (commit_session-IsBounded id binding origins) sessions h))
