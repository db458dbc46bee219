-- ===== src/Chat/Samples.antt =====
-- Runs of a chat room.
use faisalaffan_design_syste.Base.{
  ◌≡◌, refl, true, false, none, some, List, [], ◌∷◌, ◌==◌, nat_key, string_key, contains,
}
use faisalaffan_design_syste.Chat.{
  Message, Room, new_room, Signal, join, leave, broadcast, run, step, deliver,
}
use faisalaffan_design_syste.Chat.History.{history-latest, leave_after_drop, latest, messages}

abbrev hello : Message
hello = record { user = "ana"; room = "lobby"; content = "hello"; timestamp = 1 }

abbrev talk : List Signal
talk =
    join 1
    ∷ join 2
    ∷ broadcast (some hello) (λ c. c == 2)
    ∷ broadcast none (λ c. false)
    ∷ leave 1
    ∷ []

abbrev after : Room
after = record {
  name = "lobby";
  clients = [];
  history = hello ∷ [];
  max_history = 100;
  closed = 1 ∷ 2 ∷ [];
  sent = (1, hello) ∷ [];
}

talk_runs : run talk (new_room "lobby") ≡ some after
unfolding run step deliver contains
talk_runs = refl

history-latest_example : after.history ≡ latest 100 (messages talk)
history-latest_example = history-latest "lobby" talk after talk_runs

abbrev lonely : Room
lonely = record (new_room "lobby") { clients = 7 ∷ [] }

leave_after_drop_example : run (broadcast (some hello) (λ c. true) ∷ leave 7 ∷ []) lonely ≡ none
leave_after_drop_example = leave_after_drop 7 hello (λ c. true) lonely [] refl refl
