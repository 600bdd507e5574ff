-- ===== src/Content/Platform/Fallback.antt =====
-- The fallback between the candidates of a platform, in crates/audiodown-content/src/router.rs.
use mathlib.Core.List.{Memᴰ, append_assoc, append-nil}
use audio_down_core.Base.{
  Bool, true, false, not, ◌||◌, ◌≡◌, ◌⊎◌, inl, inr, refl, ap, ◌∙◌, Option, none, some, List, [],
  ◌∷◌, All, ◌++◌, Result, ok, err, Result-cases, Bool-cases, arith,
}
use audio_down_core.PluginApi.Error.{is_retryable}
use audio_down_core.Content.Candidate.{ContentCandidate}
use audio_down_core.Content.Cursor.{SourceCursor}
use audio_down_core.Content.Dedup.{source_of}
use audio_down_core.Content.Platform.{
  FailureData, ContentFailure, with_source, PlatformResult, ask_in_turn,
}

module _ {R S : Type 0} (try : ContentCandidate → Result R FailureData)
    (answer : ContentCandidate → R → List S × Option SourceCursor) (allow_fallback : Bool) where
  -- After this failure no further candidate is asked.
  abbrev pub IsFinal : FailureData → Type 0
  IsFinal failure = (allow_fallback ≡ false) ⊎ (is_retryable failure.code ≡ false)

  -- How the candidates are asked: what failed, in order, and the candidate that answered, if one did.
  pub data Outcome
      : List ContentCandidate → List ContentFailure → Option (ContentCandidate × R) → Type 0 where
    exhausted : Outcome [] [] none
    answered :
        {c : ContentCandidate} {cs : List ContentCandidate} {r : R}
        → try c ≡ ok r
        → Outcome (c ∷ cs) [] (some (c, r))
    stopped :
        {c : ContentCandidate} {cs : List ContentCandidate} {f : FailureData}
        → try c ≡ err f
        → IsFinal f
        → Outcome (c ∷ cs) (with_source (source_of c) f ∷ []) none
    passed :
        {c : ContentCandidate} {cs : List ContentCandidate} {f : FailureData}
        {fs : List ContentFailure} {o : Option (ContentCandidate × R)}
        → try c ≡ err f
        → allow_fallback ≡ true
        → is_retryable f.code ≡ true
        → Outcome cs fs o
        → Outcome (c ∷ cs) (with_source (source_of c) f ∷ fs) o

  -- The result that an outcome gives.
  abbrev pub result_of : List ContentFailure → Option (ContentCandidate × R) → PlatformResult S
  result_of fs none = record { contents = []; failures = fs; next_cursor = none }
  result_of fs (some (c, r)) = record {
    contents = (answer c r).0;
    failures = fs;
    next_cursor = (answer c r).1;
  }

  -- The three ways of one round, as equations.
  module _ (before : List ContentFailure) (c : ContentCandidate) (cs : List ContentCandidate) where
    ask-answered :
        {r : R}
        → try c ≡ ok r
        → ask_in_turn try answer allow_fallback before (c ∷ cs) ≡ result_of before (some (c, r))
    unfolding ask_in_turn
    ask-answered e = rw (e, ask_in_turn)

    ask-stopped :
        {f : FailureData}
        → try c ≡ err f
        → (not allow_fallback || not (is_retryable f.code)) ≡ true
        → ask_in_turn try answer allow_fallback before (c ∷ cs)
          ≡ result_of (before ++ with_source (source_of c) f ∷ []) none
    unfolding ask_in_turn
    ask-stopped e stop = rw (e, ask_in_turn) (rw stop)

    ask-passed :
        {f : FailureData}
        → try c ≡ err f
        → (not allow_fallback || not (is_retryable f.code)) ≡ false
        → ask_in_turn try answer allow_fallback before (c ∷ cs)
          ≡ ask_in_turn try answer allow_fallback (before ++ with_source (source_of c) f ∷ []) cs
    unfolding ask_in_turn
    ask-passed e go_on = rw (e, ask_in_turn) (rw go_on)

  ask_in_turn-from :
      (before : List ContentFailure) (cs : List ContentCandidate)
      → (fs : List ContentFailure) × (o : Option (ContentCandidate × R)) × Outcome cs fs o
        × (ask_in_turn try answer allow_fallback before cs ≡ result_of (before ++ fs) o)
  ask_in_turn-from before [] = ([], none, exhausted, rw append-nil (unfold ask_in_turn in refl))
  ask_in_turn-from before (c ∷ cs) = elim (Result-cases (try c)) [
    | inl (r, e) ↦ ([], some (c, r), answered e, rw append-nil (ask-answered before c cs e))
    | inr (f, e) ↦
        let failure = with_source (source_of c) f in
        elim (Bool-cases (not allow_fallback || not (is_retryable f.code))) [
          | inl stop ↦
              (failure ∷ [], none, stopped e (ground arith), ask-stopped before c cs e stop)
          | inr go_on ↦
              let (fs, o, outcome, same) = ask_in_turn-from (before ++ failure ∷ []) cs in
              (
                failure ∷ fs,
                o,
                passed e (ground arith) (ground arith) outcome,
                ask-passed before c cs e go_on
                    ∙ same
                    ∙ ap (λ l. result_of l o) (append_assoc before (failure ∷ []) fs),
              )
        ]
  ]

  -- The candidates of a platform are asked in their order until one answers: the result has the
  -- contents and the cursor of that one, and the failures of those before it in order. A failure is
  -- passed over only where falling back is allowed and the failure is retryable; any other failure
  -- ends the loop with no contents.
  pub ask_in_turn-Outcome :
      (cs : List ContentCandidate)
      → (fs : List ContentFailure) × (o : Option (ContentCandidate × R)) × Outcome cs fs o
        × (ask_in_turn try answer allow_fallback [] cs ≡ result_of fs o)
  ask_in_turn-Outcome cs = ask_in_turn-from [] cs

  -- The candidate that answered is one of those asked.
  pub Outcome-answer :
      {cs : List ContentCandidate} {fs : List ContentFailure} {o : Option (ContentCandidate × R)}
      → Outcome cs fs o
      → (c : ContentCandidate) (r : R) → o ≡ some (c, r)
      → Memᴰ c cs × (try c ≡ ok r)
  Outcome-answer exhausted c r h = cc
  Outcome-answer (answered {c = d} {cs} {r = q} e) c r h = (Memᴰ.head (ground arith), ground arith)
  Outcome-answer (stopped e final) c r h = cc
  Outcome-answer (passed e allowed retry rest) c r h =
      let (there, said) = Outcome-answer rest c r h in (Memᴰ.tail there, said)

module _ {R S : Type 0} (try : ContentCandidate → Result R FailureData)
    (answer : ContentCandidate → R → List S × Option SourceCursor) (allow_fallback : Bool)
    (cs : List ContentCandidate) where
  -- What holds of every answer's contents holds of the result's.
  pub All-contents :
      (P : S → Type 0)
      → ((c : ContentCandidate) (r : R) → Memᴰ c cs → try c ≡ ok r → All P (answer c r).0)
      → All P (ask_in_turn try answer allow_fallback [] cs).contents
  All-contents P good =
      let (fs, o, outcome, same) = ask_in_turn-Outcome try answer allow_fallback cs in
      rw same (go fs o outcome)
    where
      go :
          (fs : List ContentFailure) (o : Option (ContentCandidate × R))
          → Outcome try answer allow_fallback cs fs o
          → All P (result_of try answer allow_fallback fs o).contents
      go fs none outcome = tt
      go fs (some (c, r)) outcome =
          let (there, said) = Outcome-answer try answer allow_fallback outcome c r refl in
          good c r there said

  -- A cursor is the one of an answer.
  pub next_cursor-answer :
      (s : SourceCursor)
      → (ask_in_turn try answer allow_fallback [] cs).next_cursor ≡ some s
      → (c : ContentCandidate) × (r : R) × Memᴰ c cs × (try c ≡ ok r) × ((answer c r).1 ≡ some s)
  next_cursor-answer s h =
      let (fs, o, outcome, same) = ask_in_turn-Outcome try answer allow_fallback cs in
      go fs o outcome (rw same at h)
    where
      go :
          (fs : List ContentFailure) (o : Option (ContentCandidate × R))
          → Outcome try answer allow_fallback cs fs o
          → (result_of try answer allow_fallback fs o).next_cursor ≡ some s
          → (c : ContentCandidate) × (r : R) × Memᴰ c cs
            × (try c ≡ ok r)
            × ((answer c r).1 ≡ some s)
      go fs none outcome k = absurd (ground (arith, k))
      go fs (some (c, r)) outcome k =
          let (there, said) = Outcome-answer try answer allow_fallback outcome c r refl in
          (c, r, there, said, k)

module _ {R S : Type 0} (try : ContentCandidate → Result R FailureData)
    (answer : ContentCandidate → R → List S × Option SourceCursor) (allow_fallback : Bool)
    (Q : ContentFailure → Type 0) where
  Outcome-failures :
      {cs : List ContentCandidate} {fs : List ContentFailure} {o : Option (ContentCandidate × R)}
      → Outcome try answer allow_fallback cs fs o
      → ((c : ContentCandidate) (f : FailureData)
          → Memᴰ c cs
          → try c ≡ err f
          → Q (with_source (source_of c) f))
      → All Q fs
  Outcome-failures exhausted bad = tt
  Outcome-failures (answered e) bad = tt
  Outcome-failures (stopped {c} {f} e final) bad = (bad c f (Memᴰ.head refl) e, tt)
  Outcome-failures (passed {c} {f} e allowed retry rest) bad =
      (bad c f (Memᴰ.head refl) e, Outcome-failures rest (λ d g there. bad d g (Memᴰ.tail there)))

  -- What holds of every failed call holds of the result's failures.
  pub All-failures :
      (cs : List ContentCandidate)
      → ((c : ContentCandidate) (f : FailureData)
          → Memᴰ c cs
          → try c ≡ err f
          → Q (with_source (source_of c) f))
      → All Q (ask_in_turn try answer allow_fallback [] cs).failures
  All-failures cs bad =
      let (fs, o, outcome, same) = ask_in_turn-Outcome try answer allow_fallback cs in
      rw same (go fs o outcome)
    where
      go :
          (fs : List ContentFailure) (o : Option (ContentCandidate × R))
          → Outcome try answer allow_fallback cs fs o
          → All Q (result_of try answer allow_fallback fs o).failures
      go fs none outcome = Outcome-failures outcome bad
      go fs (some (c, r)) outcome = Outcome-failures outcome bad
