-- ===== src/Runtime/Life/Writing.antt =====
-- What the tasks and the writes of a session make of it.
use svitock.Base.{
  ◌≡◌, refl, sym, ◌∙◌, ◌⊎◌, inl, inr, Bool, true, false, [], ◌∷◌, Bytes, arith, take, is_empty,
  List, Ensures, Ensures-mono,
}
use svitock.Session.{
  WebSocketSession, Transports, WriteEvent, runs_task, completes, unbind_transport, write_step,
}
use svitock.Session.Writes.{IsWriting, HasFailed}
use svitock.Runtime.Life.Connected.{IsOpen, IsSession}
use svitock.Runtime.Life.Events.{settled-IsSession, silent_writes}

-- The handler leaves the registry, the reading half and whether a write has failed as they are.
abbrev IsPlain : Transports → WebSocketSession → Transports × WebSocketSession → Type 0
IsPlain t s c =
    (c.0 ≡ t)
    × (c.1.session_id ≡ s.session_id)
    × (c.1.reads ≡ s.reads)
    × (c.1.accepting ≡ s.accepting)
    × (IsWriting s → IsWriting c.1)
    × (HasFailed s → HasFailed c.1)

-- The handler ends the session.
abbrev IsLast : Transports → WebSocketSession → Transports × WebSocketSession → Type 0
IsLast t s c =
    (c.0 ≡ unbind_transport s.session_id t)
    × (c.1.session_id ≡ s.session_id)
    × (c.1.reads ≡ s.reads)
    × (c.1.accepting ≡ s.accepting)
    × HasFailed c.1

-- No task waits; no write is outstanding.
idle_task :
    (t : Transports) (s : WebSocketSession) (P : Transports × WebSocketSession → Type 0)
    → s.posted ≡ []
    → P (t, s)
    → Ensures P (write_step (t, s) runs_task)
unfolding write_step
idle_task t s P h v = simp (write_step, h) v

idle_write :
    (t : Transports) (s : WebSocketSession) (failed : Bool)
    (P : Transports × WebSocketSession → Type 0)
    → s.writing ≡ []
    → P (t, s)
    → Ensures P (write_step (t, s) (completes failed))
unfolding write_step
idle_write t s failed P h v = simp (write_step, h) v

runs_task-IsPlain :
    (t : Transports) (s : WebSocketSession) (wq posted : List Bytes)
    → s.write_queue ≡ wq
    → s.posted ≡ posted
    → Ensures (IsPlain t s) (write_step (t, s) runs_task)
unfolding write_step
runs_task-IsPlain t s wq [] ew ep = ground arith
runs_task-IsPlain t s [] (x ∷ xs) ew ep = ground arith
runs_task-IsPlain t s (w ∷ ws) (x ∷ xs) ew ep = ground arith

completes-IsPlain :
    (t : Transports) (s : WebSocketSession) (wq writing : List Bytes)
    → s.write_queue ≡ wq
    → s.writing ≡ writing
    → IsWriting s ⊎ HasFailed s
    → Ensures (IsPlain t s) (write_step (t, s) (completes false))
unfolding write_step
completes-IsPlain t s wq [] ew ep v = ground arith
completes-IsPlain t s [] (x ∷ xs) ew ep v = ground arith
completes-IsPlain t s (w ∷ []) (x ∷ xs) ew ep v = ground arith
completes-IsPlain t s (w ∷ w' ∷ ws) (x ∷ xs) ew ep v = ground arith

completes-IsLast :
    (t : Transports) (s : WebSocketSession) (wq writing : List Bytes)
    → s.write_queue ≡ wq
    → s.writing ≡ writing
    → IsWriting s ⊎ HasFailed s
    → Ensures (λ c. IsPlain t s c ⊎ IsLast t s c) (write_step (t, s) (completes true))
unfolding write_step
completes-IsLast t s wq [] ew ep v =
    idle_write t s true (λ c. IsPlain t s c ⊎ IsLast t s c) ep
      (inl (refl, refl, refl, refl, λ h. h, λ h. h))
completes-IsLast t s [] (x ∷ xs) ew ep v = ground arith
completes-IsLast t s (w ∷ ws) (x ∷ xs) ew ep v = ground arith

failed_is_not_writing :
    (wq writing : List Bytes) → writing ≡ take 1 wq → writing ≡ [] → is_empty wq ≡ false → ⊥
failed_is_not_writing [] writing w e q = cc
failed_is_not_writing (x ∷ xs) writing w e q = cc

-- The registry keeps its binding of the session, or loses it as the session ends.
abbrev pub IsKept : Transports → WebSocketSession → Transports × WebSocketSession → Type 0
IsKept t s c = (c.0 ≡ t) × (IsOpen s → IsOpen c.1) × (IsOpen c.1 → IsOpen s)

abbrev pub IsEnded : Transports → WebSocketSession → Transports × WebSocketSession → Type 0
IsEnded t s c = (c.0 ≡ unbind_transport s.session_id t) × (IsOpen c.1 → ⊥)

abbrev pub Agrees : Transports → WebSocketSession → Transports × WebSocketSession → Type 0
Agrees t s c = IsSession c.1 × (c.1.session_id ≡ s.session_id) × (IsKept t s c ⊎ IsEnded t s c)

module _ (t : Transports) (s : WebSocketSession) (v : IsSession s) where
  same-Agrees : Agrees t s (t, s)
  same-Agrees = (v, refl, inl (refl, λ h. h, λ h. h))

  -- Nothing waits and nothing is being written while the handshake is outstanding.
  silent-Agrees :
      s.accepting ≡ 1
      → (e : WriteEvent) → (e ≡ runs_task) ⊎ ((failed : Bool) × (e ≡ completes failed))
      → Ensures (Agrees t s) (write_step (t, s) e)
  unfolding write_step
  silent-Agrees h e (inl k) =
      let (w, q, p, r) = silent_writes s h v in rw k (idle_task t s (Agrees t s) p same-Agrees)
  silent-Agrees h e (inr (failed, k)) =
      let (w, q, p, r) = silent_writes s h v in
      rw k (idle_write t s failed (Agrees t s) w same-Agrees)

  plain-Agrees :
      (c : Transports × WebSocketSession) → s.accepting ≡ 0 → IsPlain t s c → Agrees t s c
  plain-Agrees c h (registry, id, reads, accepting, writing, failed) =
      let single = v.single in
      let one_write : IsWriting c.1 ⊎ HasFailed c.1 = elim v.one_write [
        | inl w ↦ inl (writing w)
        | inr f ↦ inr (failed f)
      ] in
      let back : IsWriting c.1 → IsWriting s = λ w. elim v.one_write [
        | inl w' ↦ w'
        | inr f ↦
            absurd (failed_is_not_writing c.1.write_queue c.1.writing w (failed f).0 (failed f).1)
      ] in
      (
        settled-IsSession c.1 (accepting ∙ h) (omega (arith, single, reads)) one_write,
        id,
        inl (
          registry,
          λ is_open. (reads ∙ is_open.0, writing is_open.1),
          λ is_open. (sym reads ∙ is_open.0, back is_open.1),
        ),
      )

  last-Agrees : (c : Transports × WebSocketSession) → s.accepting ≡ 0 → IsLast t s c → Agrees t s c
  last-Agrees c h (registry, id, reads, accepting, failed) =
      let single = v.single in
      (
        settled-IsSession c.1 (accepting ∙ h) (omega (arith, single, reads)) (inr failed),
        id,
        inr (
          registry,
          λ is_open. failed_is_not_writing c.1.write_queue c.1.writing is_open.1 failed.0 failed.1,
        ),
      )

  accepting-cases : (s.accepting ≡ 0) ⊎ (s.accepting ≡ 1)
  accepting-cases = let single = v.single in ground arith

  pub runs_task-Agrees : Ensures (Agrees t s) (write_step (t, s) runs_task)
  runs_task-Agrees = elim accepting-cases [
    | inl h ↦
        Ensures-mono (IsPlain t s) (Agrees t s) (write_step (t, s) runs_task)
          (λ c. plain-Agrees c h) (runs_task-IsPlain t s s.write_queue s.posted refl refl)
    | inr h ↦ silent-Agrees h runs_task (inl refl)
  ]

  pub completes-Agrees :
      (failed : Bool) → Ensures (Agrees t s) (write_step (t, s) (completes failed))
  completes-Agrees failed = elim accepting-cases [
    | inl h ↦ finished failed h
    | inr h ↦ silent-Agrees h (completes failed) (inr (failed, refl))
  ]
    where
      finished :
          (failed : Bool)
          → s.accepting ≡ 0
          → Ensures (Agrees t s) (write_step (t, s) (completes failed))
      finished false h =
          Ensures-mono (IsPlain t s) (Agrees t s) (write_step (t, s) (completes false))
            (λ c. plain-Agrees c h)
            (completes-IsPlain t s s.write_queue s.writing refl refl v.one_write)
      finished true h =
          Ensures-mono (λ c. IsPlain t s c ⊎ IsLast t s c) (Agrees t s)
            (write_step (t, s) (completes true))
            (λ c r. elim r [ inl plain ↦ plain-Agrees c h plain | inr last ↦ last-Agrees c h last ])
            (completes-IsLast t s s.write_queue s.writing refl refl v.one_write)
