-- ===== src/Network/Cookies/Access.antt =====
-- What a success of the temporary cookie jars tells of its session.
use audio_down_core.Base.{
  ℕ, ◌<◌, true, not, Option, none, some, List, [], ◌∷◌, ◌≡◌, refl, sym, ◌∙◌, subst, ap, ok, err,
  arith, inl, inr, eq_iff,
}
use Prim.Native.Nat.{compare}
use audio_down_core.Base.Map.{get}
use audio_down_core.Base.Stateful.{◌>>=◌, resume, guarded-ok}
use audio_down_core.Base.Text.{Text, text_eq}
use audio_down_core.Domain.PluginId.{plugin_id_eq}
use audio_down_core.Network.Cookies.Session.{
  Url, Library, CookieJarError, CookieJarBinding, CookieJarPurpose, login, refresh,
  CookieJarSession, active, binding_mismatch, busy, origin_denied, binding_beq, texts_beq,
  option_beq, purpose_beq, state_is_active, parse_origin,
}
use audio_down_core.Network.Cookies.Store.{cookie_header_of}
use audio_down_core.Network.Cookies.Jars.{
  Sessions, JarMethod, live_session, cookie_header, is_target,
}
use audio_down_core.Network.Cookies.Bounds.{live_session-cases}

-- The equality test of bindings is right.
texts_beq-eq : (a b : List Text) → texts_beq a b ≡ true → a ≡ b
texts_beq-eq [] [] h = refl
texts_beq-eq [] (y ∷ ys) h = absurd (ground arith)
texts_beq-eq (x ∷ xs) [] h = absurd (ground arith)
texts_beq-eq (x ∷ xs) (y ∷ ys) h = ground (arith, eq_iff x y, texts_beq-eq xs ys)

option_beq-eq : (a b : Option Text) → option_beq a b ≡ true → a ≡ b
option_beq-eq none none h = refl
option_beq-eq none (some y) h = absurd (ground arith)
option_beq-eq (some x) none h = absurd (ground arith)
option_beq-eq (some x) (some y) h = ground (arith, eq_iff x y)

purpose_beq-eq : (a b : CookieJarPurpose) → purpose_beq a b ≡ true → a ≡ b
purpose_beq-eq login login h = refl
purpose_beq-eq login (refresh d s) h = absurd (ground arith)
purpose_beq-eq (refresh c r) login h = absurd (ground arith)
purpose_beq-eq (refresh c r) (refresh d s) h = ground arith

pub binding_beq-eq : (a b : CookieJarBinding) → binding_beq a b ≡ true → a ≡ b
binding_beq-eq a b h = ground (
  arith,
  eq_iff a.plugin_id b.plugin_id,
  option_beq-eq a.manifest_hash b.manifest_hash,
  eq_iff a.platform_id b.platform_id,
  eq_iff a.scope b.scope,
  texts_beq-eq a.target_origins b.target_origins,
  purpose_beq-eq a.purpose b.purpose,
)

module _ {Store : Type 0} where
  pub live_session-ok :
      {B : Type 0} (now id : ℕ) (f : CookieJarSession Store → JarMethod Store B)
      (s : Sessions Store) (b : B)
      → ((live_session now id >>= f) s).0 ≡ ok b
      → (session : CookieJarSession Store) × (get compare id s ≡ some session)
        × (now < session.expires_at)
        × ((live_session now id >>= f) s ≡ f session s)
  live_session-ok now id f s b h = elim (live_session-cases now id s) [
    | inl (session, e, alive, same) ↦ (session, e, alive, ap (λ r. resume f r.0 r.1) same)
    | inr (inl missing) ↦ absurd (lost (subst (λ r. (resume f r.0 r.1).0 ≡ ok b) missing h))
    | inr (inr over) ↦ absurd (lost (subst (λ r. (resume f r.0 r.1).0 ≡ ok b) over h))
  ]
    where
      lost : {e : CookieJarError} → err e ≡ ok b → ⊥
      lost k = cc

module _ {Store Raw : Type 0} (library : Library Store Raw) where
  -- A cookie header is given out only from a session that exists, has not expired, is active and is
  -- bound exactly as the caller says, and only for a URL on one of the binding's origins.
  pub cookie_header-IsBound :
      (now id : ℕ) (binding : CookieJarBinding) (url : Url) (s : Sessions Store)
      (header : Option Text)
      → (cookie_header library now id binding url s).0 ≡ ok header
      → (session : CookieJarSession Store) × (get compare id s ≡ some session)
        × (now < session.expires_at)
        × (session.binding ≡ binding)
        × (session.state ≡ active)
        × (is_target library binding (parse_origin library url.origin) ≡ true)
        × (cookie_header_of library session.store url ≡ ok header)
  unfolding cookie_header
  cookie_header-IsBound now id binding url s header h =
      let (session, e, alive, same) = live_session-ok now id _ s header h in
      let (bound, same1) =
        guarded-ok (not (binding_beq session.binding binding)) binding_mismatch _ s header
          (sym (ap (λ r. r.0) same) ∙ h) in
      let (idle, same2) =
        guarded-ok (not (state_is_active session.state)) busy _ s header
          (sym (ap (λ r. r.0) (same ∙ same1)) ∙ h) in
      let (target, same3) =
        guarded-ok (not (is_target library binding (parse_origin library url.origin))) origin_denied
          _ s header (sym (ap (λ r. r.0) (same ∙ same1 ∙ same2)) ∙ h) in
      (
        session,
        e,
        alive,
        binding_beq-eq session.binding binding (ground arith),
        ground arith,
        ground arith,
        sym (ap (λ r. r.0) (same ∙ same1 ∙ same2 ∙ same3)) ∙ h,
      )
