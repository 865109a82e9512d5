-- ===== src/Listener/Opening/Errors.antt =====
-- A listener is made exactly if no call fails, and the first error is the one that is thrown.
use svitock.Base.{
  ◌≡◌, refl, Option, none, some, List, [], ◌∷◌, ◌++◌, Bytes, codes, Outcome, ok, throws,
  runtime_error, ◌⊎◌, inl, inr, Option-cases,
}
use svitock.Extern.Acceptor.{AcceptorLib}
use svitock.Listener.Opening.{open_websocket, open_http, open_legacy}

-- Calls one after the other: what the last one leaves, or the place's text and the message of the
-- first error, after which no call follows.
pub first_error : {A : Type 0} → A → List (Bytes × (A → A × Option Bytes)) → A ⊎ (Bytes × Bytes)
first_error a [] = inl a
first_error a ((place, call) ∷ calls) =
    let rest = first_error (call a).0 calls in
    elim (call a).1 [ none ↦ rest | some message ↦ inr (place, message) ]

module _ (lib : AcceptorLib) where
  open lib use {Acceptor, Endpoint, System, fresh, open_for, reuse_address, bind, listen}

  abbrev pub calls : Endpoint → List (Bytes × (Acceptor → Acceptor × Option Bytes))
  calls endpoint =
      (codes "open", λ a. open_for a endpoint)
      ∷ (codes "set_option", reuse_address)
      ∷ (codes "bind", λ a. bind a endpoint)
      ∷ (codes "listen", listen)
      ∷ []

  abbrev pub plain : Acceptor ⊎ (Bytes × Bytes) → Outcome Acceptor
  plain (inl a) = ok a
  plain (inr (place, message)) = throws (runtime_error message)

  abbrev pub placed : Acceptor ⊎ (Bytes × Bytes) → Outcome Acceptor
  placed (inl a) = ok a
  placed (inr (place, message)) =
      throws (runtime_error (codes "acceptor " ++ (place ++ (codes " failed: " ++ message))))

  -- Each listener is made with what the four calls leave, if none of them fails; otherwise the
  -- constructor throws at the first call that fails, with its message, to which the listener that the
  -- build leaves out adds the place.
  pub open-first_error :
      (system : System) (endpoint : Endpoint)
      → (open_websocket lib system endpoint ≡ plain (first_error (fresh system) (calls endpoint)))
        × (open_http lib system endpoint ≡ plain (first_error (fresh system) (calls endpoint)))
        × (open_legacy lib system endpoint ≡ placed (first_error (fresh system) (calls endpoint)))
  unfolding open_websocket open_http open_legacy first_error
  open-first_error system endpoint =
      let opened = open_for (fresh system) endpoint in
      let reusing = reuse_address opened.0 in
      let bound = bind reusing.0 endpoint in
      elim (Option-cases opened.1) [
        | inr (m, e) ↦ rw e (refl, refl, refl)
        | inl e ↦ elim (Option-cases reusing.1) [
          | inr (m, e') ↦ rw (e, e') (refl, refl, refl)
          | inl e' ↦ elim (Option-cases bound.1) [
            | inr (m, e'') ↦ rw (e, e', e'') (refl, refl, refl)
            | inl e'' ↦ elim (Option-cases (listen bound.0).1) [
              | inr (m, e3) ↦ rw (e, e', e'', e3) (refl, refl, refl)
              | inl e3 ↦ rw (e, e', e'', e3) (refl, refl, refl)
            ]
          ]
        ]
      ]
