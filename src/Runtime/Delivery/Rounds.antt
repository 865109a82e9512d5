-- ===== src/Runtime/Delivery/Rounds.antt =====
-- A visit does what the stages say, at every stage and for every actor; and so do rounds.
use svitock.Base.{◌≡◌, refl, false, Bool, ◌||◌, none, some, List, [], ◌∷◌, ok}
use svitock.Extern.Queue.{IsFifo}
use svitock.Actor.Payload.{ActorType, SendMessageEvent, session, chat, message, storage}
use svitock.Runtime.{Platform, Stamp, World}
use svitock.Runtime.Worker.{round}
use svitock.Runtime.Pipeline.{
  none_sent, echo_sent, both_sent, Stage, at_message, at_chat, fanned, advance, advances,
}
use svitock.Runtime.Delivery.{IsDeliverable, HasReached}
use svitock.Runtime.Delivery.Simulation.{
  Visits, idles, visit-at_message, visit-at_chat, visit-storage,
}
use svitock.Runtime.Delivery.Notified.{visit-echo, visit-incoming}

module _ (p : Platform) (fifo : IsFifo p.queue) (w : World p) (e : SendMessageEvent)
    (d : IsDeliverable p w e) where
  -- Each visit returns, and leaves the state of the stage that the abstract machine reaches.
  pub visit-HasReached :
      (st : Stage p) (stamp : Stamp p) (v : World p) (t : ActorType)
      → HasReached p w e d st v
      → Visits p fifo w e d (advance p st t stamp) stamp v t
  visit-HasReached at_message stamp v message r = visit-at_message p fifo w e d stamp v r
  visit-HasReached at_message stamp v session r =
      idles p fifo w e d at_message stamp v session r refl
  visit-HasReached at_message stamp v chat r = idles p fifo w e d at_message stamp v chat r refl
  visit-HasReached at_message stamp v storage r =
      idles p fifo w e d at_message stamp v storage r refl
  visit-HasReached at_chat stamp v chat r = visit-at_chat p fifo w e d stamp v r
  visit-HasReached at_chat stamp v session r = idles p fifo w e d at_chat stamp v session r refl
  visit-HasReached at_chat stamp v message r = idles p fifo w e d at_chat stamp v message r refl
  visit-HasReached at_chat stamp v storage r = idles p fifo w e d at_chat stamp v storage r refl
  visit-HasReached (fanned none k) stamp v storage r = visit-storage p fifo w e d k stamp v r
  visit-HasReached (fanned (some o) k) stamp v storage r =
      idles p fifo w e d (fanned (some o) k) stamp v storage r refl
  visit-HasReached (fanned none k) stamp v chat r =
      idles p fifo w e d (fanned none k) stamp v chat r refl
  visit-HasReached (fanned (some o) k) stamp v chat r =
      idles p fifo w e d (fanned (some o) k) stamp v chat r refl
  visit-HasReached (fanned none k) stamp v message r =
      idles p fifo w e d (fanned none k) stamp v message r refl
  visit-HasReached (fanned (some o) k) stamp v message r =
      idles p fifo w e d (fanned (some o) k) stamp v message r refl
  visit-HasReached (fanned none none_sent) stamp v session r =
      visit-echo p fifo w e d none stamp v r
  visit-HasReached (fanned none echo_sent) stamp v session r =
      visit-incoming p fifo w e d none stamp v r
  visit-HasReached (fanned none both_sent) stamp v session r =
      idles p fifo w e d (fanned none both_sent) stamp v session r refl
  visit-HasReached (fanned (some o) none_sent) stamp v session r =
      visit-echo p fifo w e d (some o) stamp v r
  visit-HasReached (fanned (some o) echo_sent) stamp v session r =
      visit-incoming p fifo w e d (some o) stamp v r
  visit-HasReached (fanned (some o) both_sent) stamp v session r =
      idles p fifo w e d (fanned (some o) both_sent) stamp v session r refl

  -- So does a round, whatever its order.
  pub round-HasReached :
      (order : List (ActorType × Stamp p)) (st : Stage p) (v : World p)
      → HasReached p w e d st v
      → (v' : World p) × (processed : Bool) × (round p v order ≡ ok (v', processed))
        × HasReached p w e d (advances p st order) v'
  unfolding round
  round-HasReached [] st v r = (v, false, refl, r)
  round-HasReached ((t, stamp) ∷ order) st v r =
      let (v', processed, visited, r') = visit-HasReached st stamp v t r in
      let (v'', later, rest, r'') = round-HasReached order (advance p st t stamp) v' r' in
      (v'', processed || later, rw (round, visited, rest) refl, r'')
