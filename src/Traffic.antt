-- ===== src/Traffic.antt =====
-- What a goroutine that serves one accepted connection does, as a list of effects, and the books
-- that tell whether it uses and releases its two connections properly.
pub mod Copying
use wireproxy.Base.{ℕ, ◌≡◌, Option, none, some, List, [], ◌∷◌, ◌⊎◌}
use wireproxy.Router.{Via}
use wireproxy.Text.{Text}

-- Where a dial goes: an address with a name, for a dialer that chooses the network by it, or one that
-- is resolved, with its port, and the network on which it is dialed.
pub data Dest : Type 0 where
  named : Text → Dest
  resolved : Via → Text → ℕ → Dest

-- What is written to the client: the line that confirms a tunnel, or a response with its status
-- code, its text, its protocol, its headers and its body.
pub data Message : Type 0 where
  established : Message
  response : ℕ → Text → Text → List (Text × Text) → Text → Message

-- `dialed` is a call of the dialer; `connected` follows where it gives a connection to the peer.
-- `forwarding` spawns the two goroutines that copy and then close both connections.
pub data Effect : Type 0 where
  dialed : Dest → Effect
  connected : Effect
  told : Message → Effect
  sent : Effect
  closed_client closed_peer : Effect
  forwarding : Effect

pub data Hold : Type 0 where
  absent in_hand shut handed_over : Hold

pub record Books : Type 0 where
  pub client : Hold
  pub peer : Hold

-- The books after an effect; none where a connection is used that is not open and in hand.
unfoldable pub book : Effect → Books → Option Books
book (dialed d) b = some b
book connected b = elim b.peer [ absent ↦ some (record b { peer = in_hand }) | _ ↦ none ]
book (told m) b = elim b.client [ in_hand ↦ some b | _ ↦ none ]
book sent b = elim b.peer [ in_hand ↦ some b | _ ↦ none ]
book closed_client b = elim b.client [ in_hand ↦ some (record b { client = shut }) | _ ↦ none ]
book closed_peer b = elim b.peer [ in_hand ↦ some (record b { peer = shut }) | _ ↦ none ]
book forwarding b = elim b.client [
  | in_hand ↦ elim b.peer [
    | in_hand ↦ some (record { client = handed_over; peer = handed_over })
    | _ ↦ none
  ]
  | _ ↦ none
]

unfoldable pub settle : List Effect → Books → Option Books
unfolding book
settle [] b = some b
settle (e ∷ es) b = elim (book e b) [ none ↦ none | some next ↦ settle es next ]

abbrev pub accepted : Books
accepted = record { client = in_hand; peer = absent }

-- Nothing is left open in hand: both connections are with the two goroutines, or the client's is
-- closed and the peer's is closed too, where there was one.
abbrev pub IsReleased : Books → Type 0
IsReleased b =
    ((b.client ≡ handed_over) × (b.peer ≡ handed_over))
    ⊎ ((b.client ≡ shut) × ((b.peer ≡ shut) ⊎ (b.peer ≡ absent)))

-- From the accepted client on, the goroutine uses and closes a connection only while it is open and in
-- hand, and none is left behind.
abbrev pub IsTidy : List Effect → Type 0
IsTidy es = (b : Books) × (settle es accepted ≡ some b) × IsReleased b

abbrev pub both_handed_over : Books
both_handed_over = record { client = handed_over; peer = handed_over }

abbrev pub client_shut : Books
client_shut = record { client = shut; peer = absent }

abbrev pub both_shut : Books
both_shut = record { client = shut; peer = shut }

-- The destinations that are dialed, in order.
abbrev pub dials : List Effect → List Dest
dials [] = []
dials (dialed d ∷ es) = d ∷ dials es
dials (e ∷ es) = dials es
