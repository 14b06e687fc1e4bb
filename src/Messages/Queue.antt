-- ===== src/Messages/Queue.antt =====
-- MessageQueue of airs/src/MessageQueue.h and MessageQueue.cpp. The queue of Boost is a parameter.
use airs.Base.{
  ℕ, zero, suc, ◌≡◌, List, [], ◌∷◌, ◌++◌, Bool, true, false, ◌&&◌, ◌==◌, Option, none, some, leb,
  ltb, length, if◌then◌else◌,
}
use airs.Base.Int.{ℤ, pos, ◌-ℤ◌, leb_ℤ, ltb_ℤ, eqb_ℤ, pos_part}

pub record MsgUnit : Type 0 where
  pub id : ℤ
  pub par1 : ℤ
  pub par2 : ℤ

-- A message with its priority.
abbrev pub Entry : Type 0
Entry = ℕ × MsgUnit

-- The place of a message: behind all of its own or a higher priority.
unfoldable pub place : Entry → List Entry → List Entry
place e [] = e ∷ []
place e (x ∷ xs) = let later = place e xs in if leb e.0 x.0 then x ∷ later else e ∷ x ∷ xs

-- boost::interprocess::message_queue: what is in it, and its two operations where they do not wait.
pub record BoostQueue : Type 1 where
  pub Queue : Type 0
  pub entries : Queue → List Entry
  pub send : Entry → Queue → Queue
  pub receive : Queue → Option (Entry × Queue)

-- The message of the highest priority comes first, and those of one priority in their order.
pub record QueueLaws (bq : BoostQueue) : Type 0 where
  pub entries-send : (e : Entry) (q : bq.Queue) → bq.entries (bq.send e q) ≡ place e (bq.entries q)
  pub receive-some :
      (q : bq.Queue) (e : Entry) (rest : List Entry)
      → bq.entries q ≡ e ∷ rest
      → (next : bq.Queue) × (bq.receive q ≡ some (e, next)) × (bq.entries next ≡ rest)

abbrev pub msg_quit : ℤ
msg_quit = pos 0

abbrev msg_user : ℤ
msg_user = pos 128

abbrev mqfunc_size : ℤ
mqfunc_size = pos 1024

abbrev pub max_messages : ℕ
max_messages = 1024

-- The position of the functions for a message, if there is one.
unfoldable pub position : ℤ → Option ℕ
unfolding ◌-ℤ◌
position id =
    let at = id -ℤ msg_user in
    if leb_ℤ (pos 0) at && ltb_ℤ at mqfunc_size then some (pos_part at) else none

-- The members of MessageQueue: its queue, and the functions, by their numbers, for each position.
pub record MessageQueue (bq : BoostQueue) : Type 0 where
  pub mq : Option bq.Queue
  pub funcs : ℕ → List ℕ

module _ (bq : BoostQueue) where
  unfoldable pub register_message : ℤ → ℕ → MessageQueue bq → Bool × MessageQueue bq
  register_message id slot st = elim (position id) [
    | none ↦ (false, st)
    | some at ↦
        (true, record st { funcs = λ i. if i == at then st.funcs i ++ slot ∷ [] else st.funcs i })
  ]

  -- A message to the queue, if there is one; none while it is full and the caller waits.
  unfoldable pub put_in : Option bq.Queue → Entry → MessageQueue bq → Option (MessageQueue bq)
  put_in none e st = some st
  put_in (some q) e st =
      if ltb (length (bq.entries q)) max_messages
      then some (record st { mq = some (bq.send e q) })
      else none

  unfoldable pub post_message : ℤ → ℤ → ℤ → MessageQueue bq → Option (MessageQueue bq)
  unfolding put_in
  post_message id p1 p2 st = put_in st.mq (1, record { id = id; par1 = p1; par2 = p2 }) st

  unfoldable pub send_message : ℤ → ℤ → ℤ → MessageQueue bq → Option (MessageQueue bq)
  unfolding put_in
  send_message id p1 p2 st = put_in st.mq (10, record { id = id; par1 = p1; par2 = p2 }) st

  abbrev pub call_all : List ℕ → MsgUnit → List (ℕ × (ℤ × ℤ))
  call_all [] m = []
  call_all (f ∷ fs) m = (f, (m.par1, m.par2)) ∷ call_all fs m

  -- The calls for one message.
  unfoldable pub answer : (ℕ → List ℕ) → MsgUnit → List (ℕ × (ℤ × ℤ))
  answer funcs m = elim (position m.id) [ none ↦ [] | some at ↦ call_all (funcs at) m ]

  -- What is done with the message, or without one.
  abbrev received : {A B : Type 0} → Option A → B → (A → B) → B
  received none b f = b
  received (some a) b f = f a

  -- thread_message, for at most so many messages: whether it has ended, with the calls and the queue.
  unfoldable pub thread_message :
      ℕ → (ℕ → List ℕ) → bq.Queue → Bool × (List (ℕ × (ℤ × ℤ)) × bq.Queue)
  thread_message zero funcs q = (false, ([], q))
  thread_message (suc fuel) funcs q =
      received (bq.receive q) (false, ([], q))
        (λ got.
          let called = answer funcs got.0.1 in
          let rest = thread_message fuel funcs got.1 in
          if eqb_ℤ got.0.1.id msg_quit
          then (true, (called, got.1))
          else (rest.0, (called ++ rest.1.0, rest.1.1)))
