-- ===== src/Messages/Registered.antt =====
-- RegisterMessage of airs/src/MessageQueue.cpp: a function that is registered for a message is called
-- for it, behind the earlier ones.
use airs.Base.{
  ℕ, ◌≡◌, ◌≤◌, ◌<◌, refl, ◌∙◌, sym, ap, List, [], ◌∷◌, ◌++◌, true, ◌==◌, arith, some, ◌-◌,
  if◌then◌else◌,
}
use airs.Base.Int.{ℤ, pos, ◌-ℤ◌}
use airs.Messages.Queue.{
  MsgUnit, BoostQueue, MessageQueue, position, register_message, answer, call_all,
}

position_lem : (n : ℕ) → 128 ≤ n → n < 1152 → position (pos n) ≡ some (n - 128)
unfolding position ◌-ℤ◌
position_lem n h k = ground arith

same_position : (n : ℕ) → (n == n) ≡ true
same_position n = ground arith

module _ (bq : BoostQueue) where
  call_all-snoc :
      (fs : List ℕ) (slot : ℕ) (m : MsgUnit)
      → call_all bq (fs ++ slot ∷ []) m ≡ call_all bq fs m ++ (slot, (m.par1, m.par2)) ∷ []
  call_all-snoc [] slot m = refl
  call_all-snoc (f ∷ fs) slot m = rw (call_all-snoc fs slot m) refl

  answer-at :
      (funcs : ℕ → List ℕ) (m : MsgUnit) (at : ℕ)
      → position m.id ≡ some at
      → answer bq funcs m ≡ call_all bq (funcs at) m
  unfolding answer
  answer-at funcs m at h = rw (answer, h) refl

  abbrev added : ℕ → ℕ → (ℕ → List ℕ) → ℕ → List ℕ
  added at slot funcs i = if i == at then funcs i ++ slot ∷ [] else funcs i

  register_message-at :
      (id : ℤ) (slot at : ℕ) (st : MessageQueue bq)
      → position id ≡ some at
      → register_message bq id slot st ≡ (true, record st { funcs = added at slot st.funcs })
  unfolding register_message
  register_message-at id slot at st h = rw (register_message, h) refl

  answer-added :
      (at slot : ℕ) (funcs : ℕ → List ℕ) (m : MsgUnit)
      → position m.id ≡ some at
      → answer bq (added at slot funcs) m ≡ answer bq funcs m ++ (slot, (m.par1, m.par2)) ∷ []
  answer-added at slot funcs m h =
      answer-at (added at slot funcs) m at h
      ∙ ap (λ b. call_all bq (if b then funcs at ++ slot ∷ [] else funcs at) m) (same_position at)
      ∙ call_all-snoc (funcs at) slot m
      ∙ ap (λ cs. cs ++ (slot, (m.par1, m.par2)) ∷ []) (sym (answer-at funcs m at h))

  -- If a message has a number from 128 to 1151, then RegisterMessage accepts a function for it,
  -- and that function is then called for the message with its two parameters, behind the calls of
  -- the functions that were registered before.
  pub answer-register_message :
      (n slot : ℕ) (m : MsgUnit) (st : MessageQueue bq)
      → 128 ≤ n
      → n < 1152
      → m.id ≡ pos n
      → ((register_message bq (pos n) slot st).0 ≡ true)
        × (answer bq (register_message bq (pos n) slot st).1.funcs m
            ≡ answer bq st.funcs m ++ (slot, (m.par1, m.par2)) ∷ [])
  answer-register_message n slot m st h k e =
      let p = position_lem n h k in
      let r = register_message-at (pos n) slot (n - 128) st p in
      (
        ap (λ x. x.0) r,
        ap (λ x. answer bq x.1.funcs m) r
            ∙ answer-added (n - 128) slot st.funcs m (ap position e ∙ p),
      )
