-- ===== src/Net/Circular.antt =====
-- boost::circular_buffer<char>, as far as airs/src/tcpasio.cpp uses it. `contents` is what `size()`
-- and `operator[]` show. The laws are those of the documentation of Boost.CircularBuffer.
pub mod Plain
use airs.Base.{ℕ, ◌<◌, ◌≤◌, ◌≡◌, List, [], ◌∷◌, ◌++◌, length, take, drop}

pub record Circular : Type 1 where
  pub Buffer : Type 0
  pub contents : Buffer → List ℕ
  pub capacity : Buffer → ℕ
  pub make : Buffer
  pub set_capacity : ℕ → Buffer → Buffer
  pub clear : Buffer → Buffer
  pub push_back : ℕ → Buffer → Buffer
  pub erase_begin : ℕ → Buffer → Buffer

pub record CircularLaws (C : Circular) : Type 0 where
  pub fits : (b : C.Buffer) → length (C.contents b) ≤ C.capacity b
  pub contents-make : C.contents C.make ≡ []
  -- A smaller capacity drops elements from the end.
  pub capacity-set_capacity : (n : ℕ) (b : C.Buffer) → C.capacity (C.set_capacity n b) ≡ n
  pub contents-set_capacity :
      (n : ℕ) (b : C.Buffer) → C.contents (C.set_capacity n b) ≡ take n (C.contents b)
  pub capacity-clear : (b : C.Buffer) → C.capacity (C.clear b) ≡ C.capacity b
  pub contents-clear : (b : C.Buffer) → C.contents (C.clear b) ≡ []
  -- A new element goes to the end; in a full buffer the first one goes.
  pub capacity-push_back : (c : ℕ) (b : C.Buffer) → C.capacity (C.push_back c b) ≡ C.capacity b
  pub contents-push_back :
      (c : ℕ) (b : C.Buffer)
      → length (C.contents b) < C.capacity b
      → C.contents (C.push_back c b) ≡ C.contents b ++ c ∷ []
  pub contents-push_back_full :
      (c : ℕ) (b : C.Buffer)
      → length (C.contents b) ≡ C.capacity b
      → C.contents (C.push_back c b) ≡ drop 1 (C.contents b ++ c ∷ [])
  pub capacity-erase_begin : (n : ℕ) (b : C.Buffer) → C.capacity (C.erase_begin n b) ≡ C.capacity b
  pub contents-erase_begin :
      (n : ℕ) (b : C.Buffer)
      → n ≤ length (C.contents b)
      → C.contents (C.erase_begin n b) ≡ drop n (C.contents b)
