-- ===== src/Runtime/Life/Sent.antt =====
-- The messages that stand behind the waiting envelopes of a running server: those that its open
-- sessions have read.
use svitock.Base.{true, false, List, [], ◌++◌}
use svitock.Actor.Payload.{SendMessageEvent}
use svitock.Runtime.{Platform, World}
use svitock.Runtime.Letters.Requests.{requested}
use svitock.Runtime.Sent.{IsAmong}
use svitock.Runtime.Life.{
  LifeStep, Life, opens, accepts, reads, runs, writes, dies, visits, here, next,
}
use svitock.Runtime.Life.Origins.{Opened}

module _ (p : Platform) where
  -- The messages that the texts which the sessions read asked to send, in this order.
  abbrev said : {w w' : World p} → LifeStep p w w' → List SendMessageEvent
  said (opens address session_id vacant fresh) = []
  said (accepts address s n failed live h) = []
  said (reads address s n true raw w' live h e) = []
  said (reads address s n false raw w' live h e) = requested p.json s.session_id raw
  said (runs address s c live e) = []
  said (writes address s failed c live e) = []
  said (dies address s live released) = []
  said (visits stamp t processed w' e) = []

  abbrev pub asked : {w w' : World p} → Life p w w' → List SendMessageEvent
  asked here = []
  asked (next r st) = asked r ++ said st

  -- A session that was opened has read a text that asked to send the message.
  abbrev pub IsRead : {w w' : World p} → Life p w w' → SendMessageEvent → Type 0
  IsRead r e = Opened p r e.session_id × IsAmong e (asked r)
