-- ===== src/Chat.antt =====
-- services/chat-system/room: the loop of a room as a function on the signals that it selects, and the
-- manager of rooms. A client is the number that stands for its pointer. Whether a client's buffer is
-- full when a message is sent comes with the signal. none is the panic of a send on, or a second close
-- of, a closed channel.
pub mod History
mod Samples
use faisalaffan_design_syste.Base.{
  ℕ, ◌-◌, String, Bool, not, Option, none, some, List, [], ◌∷◌, ◌++◌, ltb, if◌then◌else◌, length,
  drop, keep, ◌==◌, nat_key, string_key, lookup, insert, get_or, contains,
}

pub record Message : Type 0 where
  pub user : String
  pub room : String
  pub content : String
  pub timestamp : ℕ

-- `closed` lists the clients whose `Send` is closed; `sent` what has been put on the channels.
pub record Room : Type 0 where
  pub name : String
  pub clients : List ℕ
  pub history : List Message
  pub max_history : ℕ
  pub closed : List ℕ
  pub sent : List (ℕ × Message)

-- `New`
abbrev pub new_room : String → Room
new_room name = record {
  name = name;
  clients = [];
  history = [];
  max_history = 100;
  closed = [];
  sent = [];
}

-- What `select` may receive; none is a broadcast that json.Unmarshal refuses.
pub data Signal : Type 0 where
  join : ℕ → Signal
  leave : ℕ → Signal
  broadcast : Option Message → (ℕ → Bool) → Signal

-- `delete(clients, c)`
abbrev pub without : ℕ → List ℕ → List ℕ
without c clients = keep (λ x. not (x == c)) clients

-- The history cut to its last `max_history` messages.
abbrev pub trimmed : ℕ → List Message → List Message
trimmed limit ms = if ltb limit (length ms) then drop (length ms - limit) ms else ms

-- The loop over the clients: a message goes to each whose buffer has room, the others are closed.
unfoldable pub deliver : Message → (ℕ → Bool) → List ℕ → Room → Option Room
deliver msg full [] r = some r
deliver msg full (c ∷ cs) r =
    let dropped = record r { clients = without c r.clients; closed = c ∷ r.closed } in
    let served = record r { sent = r.sent ++ (c, msg) ∷ [] } in
    let rest = deliver msg full cs (if full c then dropped else served) in
    if contains c r.closed then none else rest

-- A round of `run`.
unfoldable pub step : Signal → Room → Option Room
unfolding deliver
step (join c) r = some (if contains c r.clients then r else record r { clients = c ∷ r.clients })
step (leave c) r =
    if contains c r.closed
    then none
    else some (record r { clients = without c r.clients; closed = c ∷ r.closed })
step (broadcast none full) r = some r
step (broadcast (some msg) full) r =
    deliver msg full r.clients
      (record r { history = trimmed r.max_history (r.history ++ msg ∷ []) })

abbrev pub and_then : Option Room → (Room → Option Room) → Option Room
and_then none f = none
and_then (some r) f = f r

-- `run`
unfoldable pub run : List Signal → Room → Option Room
unfolding step
run [] r = some r
run (s ∷ ss) r = and_then (step s r) (run ss)

-- `ClientCount`
abbrev pub client_count : Room → ℕ
client_count r = length r.clients

-- `Manager.GetOrCreate` and `Get`, on the map of rooms.
unfoldable pub get_or_create : String → List (String × Room) → List (String × Room) × Room
get_or_create name rooms =
    let found = lookup name rooms in
    (
      elim found [ none ↦ insert name (new_room name) rooms | some r ↦ rooms ],
      get_or found (new_room name),
    )

unfoldable pub get_room : String → List (String × Room) → Option Room
get_room name rooms = lookup name rooms
