-- ===== src/Runtime/Pipeline/Progress.antt =====
-- Every stage moves on, whatever the order of the visits.
use svitock.Base.{
  ◌≤◌, ◌<◌, ◌≡◌, refl, sym, subst, inl, inr, ◌⊎◌, none, some, List, [], ◌∷◌, All, length,
  Bool-cases, ltb, ltb→lt, arith,
}
use svitock.Actor.Payload.{ActorType, session, chat, message, storage}
use svitock.Runtime.{Platform, Stamp}
use svitock.Runtime.Pipeline.{
  none_sent, echo_sent, both_sent, Stage, at_message, at_chat, fanned, advance, advances, remaining,
  Visited, Covers,
}

module _ (p : Platform) where
  -- An actor whose visit a stage needs.
  abbrev awaits : Stage p → ActorType
  awaits at_message = message
  awaits at_chat = chat
  awaits (fanned none k) = storage
  awaits (fanned (some stamp) k) = session

  advance-awaits :
      (st : Stage p) (stamp : Stamp p)
      → 1 ≤ remaining p st
      → remaining p (advance p st (awaits st) stamp) < remaining p st
  advance-awaits at_message stamp h = omega arith
  advance-awaits at_chat stamp h = omega arith
  advance-awaits (fanned none k) stamp h = omega arith
  advance-awaits (fanned (some o) none_sent) stamp h = omega arith
  advance-awaits (fanned (some o) echo_sent) stamp h = omega arith
  advance-awaits (fanned (some o) both_sent) stamp h = absurd (omega arith)

  advance-cases :
      (st : Stage p) (t : ActorType) (stamp : Stamp p)
      → (advance p st t stamp ≡ st) ⊎ (remaining p (advance p st t stamp) < remaining p st)
  advance-cases at_message message stamp = inr (omega arith)
  advance-cases at_message session stamp = inl refl
  advance-cases at_message chat stamp = inl refl
  advance-cases at_message storage stamp = inl refl
  advance-cases at_chat chat stamp = inr (omega arith)
  advance-cases at_chat session stamp = inl refl
  advance-cases at_chat message stamp = inl refl
  advance-cases at_chat storage stamp = inl refl
  advance-cases (fanned none k) chat stamp = inl refl
  advance-cases (fanned none k) message stamp = inl refl
  advance-cases (fanned (some o) k) chat stamp = inl refl
  advance-cases (fanned (some o) k) message stamp = inl refl
  advance-cases (fanned none k) storage stamp = inr (omega arith)
  advance-cases (fanned (some o) k) storage stamp = inl refl
  advance-cases (fanned none none_sent) session stamp = inr (omega arith)
  advance-cases (fanned none echo_sent) session stamp = inr (omega arith)
  advance-cases (fanned none both_sent) session stamp = inl refl
  advance-cases (fanned (some o) none_sent) session stamp = inr (omega arith)
  advance-cases (fanned (some o) echo_sent) session stamp = inr (omega arith)
  advance-cases (fanned (some o) both_sent) session stamp = inl refl

  remaining-advances :
      (order : List (ActorType × Stamp p)) (st : Stage p)
      → remaining p (advances p st order) ≤ remaining p st
  remaining-advances [] st = omega arith
  remaining-advances ((t, stamp) ∷ order) st =
      let later = remaining-advances order (advance p st t stamp) in
      elim (advance-cases st t stamp) [
        | inl e ↦
            subst (λ x. remaining p (advances p x order) ≤ remaining p st) (sym e)
              (remaining-advances order st)
        | inr less ↦ omega (arith, later, less)
      ]

  Visited-progress :
      (order : List (ActorType × Stamp p)) (st : Stage p)
      → 1 ≤ remaining p st
      → Visited p (awaits st) order
      → remaining p (advances p st order) < remaining p st
  Visited-progress [] st h v = absurd v
  Visited-progress ((t, stamp) ∷ order) st h (inl e) =
      let moved = advance-awaits st stamp h in
      subst (λ u. remaining p (advances p (advance p st u stamp) order) < remaining p st) (sym e)
        (omega (arith, moved, remaining-advances order (advance p st (awaits st) stamp)))
  Visited-progress ((t, stamp) ∷ order) st h (inr v) = elim (advance-cases st t stamp) [
    | inl e ↦
        subst (λ x. remaining p (advances p x order) < remaining p st) (sym e)
          (Visited-progress order st h v)
    | inr less ↦ omega (arith, remaining-advances order (advance p st t stamp), less)
  ]

  -- The stage after several rounds.
  abbrev pub after_rounds : Stage p → List (List (ActorType × Stamp p)) → Stage p
  after_rounds st [] = st
  after_rounds st (order ∷ rounds) = after_rounds (advances p st order) rounds

  pub remaining-after_rounds :
      (rounds : List (List (ActorType × Stamp p))) (st : Stage p)
      → All (Covers p) rounds
      → remaining p st ≤ length rounds
      → remaining p (after_rounds st rounds) ≡ 0
  remaining-after_rounds [] st h k = omega arith
  remaining-after_rounds (order ∷ rounds) st h k =
      remaining-after_rounds rounds (advances p st order) h.1
        (elim (Bool-cases (ltb 0 (remaining p st))) [
          | inl more ↦ omega (
            arith,
            k,
            Visited-progress order st (ltb→lt 0 (remaining p st) more) (h.0 (awaits st)),
          )
          | inr done ↦ ground (arith, remaining-advances order st)
        ])

  -- No visit remains exactly when the message is stored and both notices are sent.
  pub remaining-none :
      (st : Stage p) → remaining p st ≡ 0 → (stamp : Stamp p) × (st ≡ fanned (some stamp) both_sent)
  remaining-none at_message h = absurd (omega arith)
  remaining-none at_chat h = absurd (omega arith)
  remaining-none (fanned none k) h = absurd (omega arith)
  remaining-none (fanned (some o) none_sent) h = absurd (omega arith)
  remaining-none (fanned (some o) echo_sent) h = absurd (omega arith)
  remaining-none (fanned (some o) both_sent) h = (o, refl)
