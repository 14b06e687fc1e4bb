-- ===== src/Messages/Tests.antt =====
-- A list in order of priority as the queue, and the theorems on messages at it.
use airs.Base.{◌≡◌, refl, ap, List, [], ◌∷◌, ◌++◌, true, Option, none, some, All, arith}
use airs.Base.Int.{pos}
use airs.Messages.Queue.{
  Entry, place, BoostQueue, QueueLaws, msg_quit, MessageQueue, register_message, send_message,
  thread_message, answer,
}
use airs.Messages.Registered.{answer-register_message}
use airs.Messages.Stop.{IsSent, answers, send_message-thread_message}

abbrev first : List Entry → Option (Entry × List Entry)
first [] = none
first (e ∷ es) = some (e, es)

abbrev listed : BoostQueue
listed = record { Queue = List Entry; entries = λ q. q; send = λ e q. place e q; receive = first }

listed-QueueLaws : QueueLaws listed
listed-QueueLaws = record {
  entries-send = λ e q. refl;
  receive-some = λ q e rest h. (rest, ap first h, refl);
}

abbrev one_sent : List Entry
one_sent = (10, record { id = pos 130; par1 = pos 1; par2 = pos 2 }) ∷ []

abbrev one_posted : List Entry
one_posted = (1, record { id = pos 131; par1 = pos 3; par2 = pos 4 }) ∷ []

abbrev running : MessageQueue listed
running = record { mq = some (one_sent ++ one_posted); funcs = λ i. i ∷ [] }

one_sent-IsSent : All IsSent one_sent
one_sent-IsSent = (record { urgent = refl; no_quit = refl }, tt)

send_message-thread_message_example :
    (after : List Entry) × (left : List Entry) × (send_message listed msg_quit
        (pos 0)
        (pos 0)
        running
      ≡ some (record running { mq = some after }))
    × (thread_message listed 2 running.funcs after
        ≡ (true, (answers listed running.funcs one_sent, left)))
    × (left ≡ one_posted)
send_message-thread_message_example =
    send_message-thread_message listed listed-QueueLaws running (one_sent ++ one_posted) one_sent
      one_posted refl refl (omega arith) one_sent-IsSent (refl, tt)

answer-register_message_example :
    ((register_message listed (pos 130) 7 running).0 ≡ true)
    × (answer listed
          (register_message listed (pos 130) 7 running).1.funcs
          (record { id = pos 130; par1 = pos 1; par2 = pos 2 })
        ≡ answer listed running.funcs (record { id = pos 130; par1 = pos 1; par2 = pos 2 })
          ++ (7, (pos 1, pos 2)) ∷ [])
answer-register_message_example =
    answer-register_message listed 130 7 (record { id = pos 130; par1 = pos 1; par2 = pos 2 })
      running (omega arith) (omega arith) refl
