-- ===== src/Network/Cookies/Commit.antt =====
-- cookie_jar.rs: what a commit that begins has found, and the end of the search for a new ID.
use audio_down_core.Base.{
  ℕ, ◌≤◌, ◌<◌, not, none, some, List, [], ◌∷◌, ◌++◌, subst, ◌≡◌, ◌≢◌, refl, sym, ◌∙◌, ap, Result,
  ok, arith, inl, inr, Option-cases, length, All, Ordering,
}
use Prim.Native.Nat.{compare}
use audio_down_core.Base.Map.{get, adjust, remove, get-remove, length-remove-lt}
use audio_down_core.Base.Order.{nat_cmp-IsLawful}
use audio_down_core.Base.Sort.{IsDistinct}
use audio_down_core.Base.Stateful.{guarded-ok, lifted-ok}
use audio_down_core.Base.Text.{Text}
use audio_down_core.Network.Cookies.Session.{
  Library, CookieJarError, CookieJarBinding, CookieJarSession, active, committing, binding_mismatch,
  busy, origin_denied, binding_beq, state_is_active, normalize_origins,
}
use audio_down_core.Network.Cookies.Jars.{
  Sessions, pick, commit_session, begin_refresh_commit, are_targets, refresh_identity,
}
use audio_down_core.Network.Cookies.Access.{live_session-ok}

module _ {Store : Type 0} where
  all_used :
      (draws : List ℕ) (sessions : Sessions Store)
      → pick draws sessions ≡ none
      → IsDistinct compare draws
      → length draws ≤ length sessions
  unfolding pick
  all_used [] sessions h distinct = omega arith
  all_used (id ∷ draws) sessions h distinct = elim (Option-cases (get compare id sessions)) [
    | inl unused ↦ absurd (ground arith)
    | inr (session, e) ↦
        let later =
          all_used draws (remove compare id sessions) (still_used draws distinct.0 (ground arith))
            distinct.1 in
        ground (arith, later, length-remove-lt compare id session sessions e)
  ]
    where
      still_used :
          (ds : List ℕ)
          → All (λ d. compare id d ≢ Ordering.eq) ds
          → pick ds sessions ≡ none
          → pick ds (remove compare id sessions) ≡ none
      still_used [] k u = refl
      still_used (d ∷ ds) k u = elim (Option-cases (get compare d sessions)) [
        | inl unused ↦ absurd (ground arith)
        | inr (s, e) ↦ ground (
          arith,
          k.0,
          still_used ds k.1,
          get-remove compare nat_cmp-IsLawful d id sessions,
          nat_cmp-IsLawful.swapped id d,
        )
      ]

  -- The first of the IDs drawn that no session has.
  pub record IsFirstUnused (draws : List ℕ) (sessions : Sessions Store) (id : ℕ) : Type 0 where
    pub before : List ℕ
    pub after : List ℕ
    pub drawn : draws ≡ before ++ id ∷ after
    pub used : All (λ d. get compare d sessions ≢ none) before
    pub unused : get compare id sessions ≡ none

  pick-found :
      (draws : List ℕ) (sessions : Sessions Store) (id : ℕ)
      → pick draws sessions ≡ some id
      → IsFirstUnused draws sessions id
  pick-found [] sessions id h = absurd (unfold pick in cc)
  pick-found (d ∷ ds) sessions id h = elim (Option-cases (get compare d sessions)) [
    | inl free ↦
        let same : d ≡ id = unfold pick in ground arith in
        subst (λ j. IsFirstUnused (d ∷ ds) sessions j) same
          (record { before = []; after = ds; drawn = refl; used = tt; unused = free })
    | inr (session, e) ↦
        let later = pick-found ds sessions id (unfold pick in ground arith) in
        record {
          before = d ∷ later.before;
          after = later.after;
          drawn = ap (λ l. d ∷ l) later.drawn;
          used = ((λ n. ground (arith, e, n)), later.used);
          unused = later.unused;
        }
  ]

  -- The loop that draws an ID ends, with the first of the IDs drawn that no session has, provided
  -- that the IDs are distinct and that more of them are drawn than there are sessions.
  pub pick-IsFirstUnused :
      (draws : List ℕ) (sessions : Sessions Store)
      → IsDistinct compare draws
      → length sessions < length draws
      → (id : ℕ) × (pick draws sessions ≡ some id) × IsFirstUnused draws sessions id
  pick-IsFirstUnused draws sessions distinct more = elim (Option-cases (pick draws sessions)) [
    | inl none_left ↦ absurd (ground (arith, all_used draws sessions none_left distinct))
    | inr (id, e) ↦ (id, e, pick-found draws sessions id e)
  ]

module _ {Store Raw Secret : Type 0} (library : Library Store Raw)
    (snapshot : Store → List Text → Result Secret CookieJarError) where
  commit_session-ok :
      (id : ℕ) (binding : CookieJarBinding) (origins : List Text) (session : CookieJarSession Store)
      (s : Sessions Store) (r : (ℕ × ℕ) × List Text × Secret)
      → (commit_session library snapshot id binding origins session s).0 ≡ ok r
      → (session.state ≡ active)
        × ((commit_session library snapshot id binding origins session s).1
            ≡ adjust compare id (record session { state = committing }) s)
  unfolding commit_session
  commit_session-ok id binding origins session s r h =
      let (bound, same) =
        guarded-ok (not (binding_beq session.binding binding)) binding_mismatch _ s r h in
      let (idle, same1) =
        guarded-ok (not (state_is_active session.state)) busy _ s r
          (sym (ap (λ x. x.0) same) ∙ h) in
      let (identity, known, same2) =
        lifted-ok (refresh_identity library snapshot binding.purpose) _ s r
          (sym (ap (λ x. x.0) (same ∙ same1)) ∙ h) in
      let (secret, read, same3) =
        lifted-ok (snapshot session.store origins) _ s r
          (sym (ap (λ x. x.0) (same ∙ same1 ∙ same2)) ∙ h) in
      (ground arith, ap (λ x. x.1) (same ∙ same1 ∙ same2 ∙ same3))

  -- What a commit that begins has found and done.
  pub begin_refresh_commit-ok :
      (now id : ℕ) (binding : CookieJarBinding) (selected : List Text) (s : Sessions Store)
      (r : (ℕ × ℕ) × List Text × Secret)
      → (begin_refresh_commit library snapshot now id binding selected s).0 ≡ ok r
      → (session : CookieJarSession Store) × (get compare id s ≡ some session)
        × (session.state ≡ active)
        × ((begin_refresh_commit library snapshot now id binding selected s).1
            ≡ adjust compare id (record session { state = committing }) s)
  unfolding begin_refresh_commit
  begin_refresh_commit-ok now id binding selected s r h =
      let (origins, valid, same) = lifted-ok (normalize_origins library selected) _ s r h in
      let (allowed, same1) =
        guarded-ok (not (are_targets library binding origins)) origin_denied _ s r
          (sym (ap (λ x. x.0) same) ∙ h) in
      let (session, e, alive, same2) =
        live_session-ok now id (commit_session library snapshot id binding origins) s r
          (sym (ap (λ x. x.0) (same ∙ same1)) ∙ h) in
      let (idle, after) =
        commit_session-ok id binding origins session s r
          (sym (ap (λ x. x.0) (same ∙ same1 ∙ same2)) ∙ h) in
      (session, e, idle, ap (λ x. x.1) (same ∙ same1 ∙ same2) ∙ after)
