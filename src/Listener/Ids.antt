-- ===== src/Listener/Ids.antt =====
-- No two sessions of a listener have the same identifier.
use svitock.Base.{
  ℕ, zero, suc, ◌+◌, ◌-◌, ◌%◌, ◌^◌, ◌<◌, ◌≡◌, ◌≢◌, refl, sym, ◌∙◌, ap, inl, inr, ◌⊎◌, Bool, true,
  false, some, List, [], ◌∷◌, ◌++◌, length, length-append, get_elem?, Bytes, arith,
}
use svitock.Base.Digits.{to_string, to_string_injective}
use svitock.Session.{WebSocketSession, make_session, run_session}
use svitock.Listener.{WebSocketListener, make_listener, do_accept, on_accept, completions}

-- The element at a place of a list with one more element.
get_elem?-snoc :
    {A : Type 0} (xs : List A) (x : A) (i : ℕ) (y : A)
    → get_elem? (xs ++ x ∷ []) i ≡ some y
    → (get_elem? xs i ≡ some y) ⊎ ((i ≡ length xs) × (x ≡ y))
get_elem?-snoc [] x zero y h = inr (refl, ground arith)
get_elem?-snoc [] x (suc i) y h = cc
get_elem?-snoc (z ∷ xs) x zero y h = inl h
get_elem?-snoc (z ∷ xs) x (suc i) y h = ground (arith, get_elem?-snoc xs x i y h)

-- The session at the place `i` has the number `i + 1` for its identifier.
abbrev HasIds : WebSocketListener → Type 0
HasIds l =
    (length l.sessions ≡ l.next_session_id)
    × ((i : ℕ) (x : WebSocketSession)
        → get_elem? l.sessions i ≡ some x
        → x.session_id ≡ to_string (suc i))

step : (n k : ℕ) → n + suc k < 2 ^ 64 → (n + 1) % 2 ^ 64 ≡ suc n
step n k h = omega arith

session_id-run_session : (t : Bytes) → (run_session (make_session t)).session_id ≡ t
unfolding make_session run_session
session_id-run_session t = refl

on_accept-HasIds :
    (l : WebSocketListener) (failed : Bool) (k : ℕ)
    → l.next_session_id + suc k < 2 ^ 64
    → HasIds l
    → HasIds (on_accept l failed) × ((on_accept l failed).next_session_id + k < 2 ^ 64)
unfolding on_accept do_accept
on_accept-HasIds l true k h v = (v, omega arith)
on_accept-HasIds l false k h (size, ids) =
    let id = (l.next_session_id + 1) % 2 ^ 64 in
    let one_more = step l.next_session_id k h in
    (
      (
        rw (length-append l.sessions (run_session (make_session (to_string id)) ∷ []))
            (omega (arith, size, one_more)),
        λ i x found.
            elim (get_elem?-snoc l.sessions (run_session (make_session (to_string id))) i x found) [
              | inl old ↦ ids i x old
              | inr (last, same) ↦
                  ap (λ y. y.session_id) (sym same)
                  ∙ (session_id-run_session (to_string id)
                      ∙ ap to_string (omega (arith, last, size, one_more)))
            ],
      ),
      omega (arith, one_more),
    )

completions-HasIds :
    (outcomes : List Bool) (l : WebSocketListener)
    → l.next_session_id + length outcomes < 2 ^ 64
    → HasIds l
    → HasIds (completions l outcomes)
unfolding completions
completions-HasIds [] l h v = v
completions-HasIds (failed ∷ rest) l h v =
    let taken = record l { accepts = l.accepts - 1 } in
    let (v', h') = on_accept-HasIds taken failed (length rest) h v in
    completions-HasIds rest (on_accept taken failed) h' v'

-- After fewer than 2 ^ 64 completed accepts of a new listener, whichever of them fail, the sessions
-- at two different places of the order of creation have different identifiers.
pub completions-distinct :
    (outcomes : List Bool) (i j : ℕ) (x y : WebSocketSession)
    → length outcomes < 2 ^ 64
    → get_elem? (completions make_listener outcomes).sessions i ≡ some x
    → get_elem? (completions make_listener outcomes).sessions j ≡ some y
    → i ≢ j
    → x.session_id ≢ y.session_id
unfolding make_listener
completions-distinct outcomes i j x y h at_i at_j different same =
    let (size, ids) = completions-HasIds outcomes make_listener (omega arith) (refl, λ k z e. cc) in
    let numbers =
      to_string_injective (suc i) (suc j) (sym (ids i x at_i) ∙ (same ∙ ids j y at_j)) in
    different (omega (arith, numbers))
