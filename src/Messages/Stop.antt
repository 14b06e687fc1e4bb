-- ===== src/Messages/Stop.antt =====
-- Stop of airs/src/MessageQueue.cpp: its message overtakes the posted ones.
use airs.Base.{
  ℕ, suc, ◌≡◌, ◌<◌, refl, ◌∙◌, sym, ap, List, [], ◌∷◌, ◌++◌, true, false, leb, some, All, length,
  ltb, lt→ltb, subst,
}
use airs.Base.Int.{ℤ, pos, eqb_ℤ, ◌-ℤ◌}
use airs.Messages.Queue.{
  Entry, place, BoostQueue, QueueLaws, msg_quit, max_messages, MessageQueue, put_in, position,
  send_message, answer, thread_message,
}

-- A message that was sent and does not end the loop, and one that was posted.
pub record IsSent (e : Entry) : Type 0 where
  pub urgent : leb 10 e.0 ≡ true
  pub no_quit : eqb_ℤ e.1.id msg_quit ≡ false

abbrev pub IsPosted : Entry → Type 0
IsPosted e = leb 10 e.0 ≡ false

abbrev pub quit : Entry
quit = (10, record { id = msg_quit; par1 = pos 0; par2 = pos 0 })

place-posted : (posted : List Entry) → All IsPosted posted → place quit posted ≡ quit ∷ posted
unfolding place
place-posted [] p = refl
place-posted (e ∷ posted) (p, ps) = rw p refl

place-quit :
    (sent posted : List Entry)
    → All IsSent sent
    → All IsPosted posted
    → place quit (sent ++ posted) ≡ sent ++ quit ∷ posted
unfolding place
place-quit [] posted s p = place-posted posted p
place-quit (e ∷ sent) posted (s, ss) p = rw (s.urgent, place-quit sent posted ss p) refl

-- The calls for some messages in order.
unfoldable pub answers : (bq : BoostQueue) → (ℕ → List ℕ) → List Entry → List (ℕ × (ℤ × ℤ))
answers bq funcs [] = []
answers bq funcs (e ∷ es) = answer bq funcs e.1 ++ answers bq funcs es

module _ (bq : BoostQueue) (laws : QueueLaws bq) where
  quit_step :
      (fuel : ℕ) (funcs : ℕ → List ℕ) (q next : bq.Queue)
      → bq.receive q ≡ some (quit, next)
      → thread_message bq (suc fuel) funcs q ≡ (true, (answer bq funcs quit.1, next))
  unfolding thread_message
  quit_step fuel funcs q next h = rw h refl

  answer-quit : (funcs : ℕ → List ℕ) → answer bq funcs quit.1 ≡ []
  unfolding answer position ◌-ℤ◌
  answer-quit funcs = refl

  other_step :
      (fuel : ℕ) (funcs : ℕ → List ℕ) (e : Entry) (q next left : bq.Queue)
      (calls : List (ℕ × (ℤ × ℤ)))
      → bq.receive q ≡ some (e, next)
      → eqb_ℤ e.1.id msg_quit ≡ false
      → thread_message bq fuel funcs next ≡ (true, (calls, left))
      → thread_message bq (suc fuel) funcs q ≡ (true, (answer bq funcs e.1 ++ calls, left))
  unfolding thread_message
  other_step fuel funcs e q next left calls h n r = rw (h, n, r) refl

  -- The loop ends at the message and leaves what is behind it.
  thread_message-quit :
      (funcs : ℕ → List ℕ) (sent posted : List Entry) (q : bq.Queue)
      → All IsSent sent
      → bq.entries q ≡ sent ++ quit ∷ posted
      → (left : bq.Queue) × (thread_message bq (suc (length sent)) funcs q
          ≡ (true, (answers bq funcs sent, left)))
        × (bq.entries left ≡ posted)
  unfolding answers
  thread_message-quit funcs [] posted q s h =
      let (next, got, rest) = laws.receive-some q quit posted h in
      (next, quit_step 0 funcs q next got ∙ ap (λ c. (true, (c, next))) (answer-quit funcs), rest)
  thread_message-quit funcs (e ∷ sent) posted q (s, ss) h =
      let (next, got, rest) = laws.receive-some q e (sent ++ quit ∷ posted) h in
      let (left, run, behind) = thread_message-quit funcs sent posted next ss rest in
      (left, other_step _ funcs e q next left _ got s.no_quit run, behind)

  sent_quit :
      (st : MessageQueue bq) (q : bq.Queue)
      → st.mq ≡ some q
      → ltb (length (bq.entries q)) max_messages ≡ true
      → send_message bq msg_quit (pos 0) (pos 0) st
        ≡ some (record st { mq = some (bq.send quit q) })
  unfolding send_message put_in
  sent_quit st q h room = ap (λ o. put_in bq o quit st) h ∙ rw room refl

  -- If the queue obeys its laws, is there and has room, and holds some messages of priority 10 or
  -- more, none of them MSG_QUIT, and behind them some of lower priority, then SendMessage of
  -- MSG_QUIT, as Stop does it, is accepted, and thread_message makes exactly the calls for the
  -- messages before it, in order, then ends, and leaves the posted messages in the queue.
  pub send_message-thread_message :
      (st : MessageQueue bq) (q : bq.Queue) (sent posted : List Entry)
      → st.mq ≡ some q
      → bq.entries q ≡ sent ++ posted
      → length (sent ++ posted) < max_messages
      → All IsSent sent
      → All IsPosted posted
      → (after : bq.Queue) × (left : bq.Queue) × (send_message bq msg_quit (pos 0) (pos 0) st
          ≡ some (record st { mq = some after }))
        × (thread_message bq (suc (length sent)) st.funcs after
            ≡ (true, (answers bq st.funcs sent, left)))
        × (bq.entries left ≡ posted)
  send_message-thread_message st q sent posted h e room s p =
      let placed = laws.entries-send quit q ∙ ap (place quit) e ∙ place-quit sent posted s p in
      let (left, run, behind) =
        thread_message-quit st.funcs sent posted (bq.send quit q) s placed in
      (
        bq.send quit q,
        left,
        sent_quit st q h (lt→ltb _ _ (subst (λ xs. length xs < max_messages) (sym e) room)),
        run,
        behind,
      )
