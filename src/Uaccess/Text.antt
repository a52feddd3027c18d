-- ===== src/Uaccess/Text.antt =====
-- `strncpy_from_user` of arch/x86_64/uaccess.c.
use emergence_kernel.Uaccess.Probe.{IsInnerRange-accepted, IsInnerRange}
use native.Mathlib.Decide.{ℕ_discrete}
use emergence_kernel.Prelude.{
  refl, ==-false, pos, ◌∙◌, sym, ℤ, zero, inr, inl, update, ltb, ◌==◌, Bool-cases, ◌&&◌, leb, suc,
  ap, arith, if◌then◌else◌, ◌-◌, ◌≢◌, ◌⊎◌, ◌+◌, ◌<◌, ◌≡◌, ◌≤◌, ℕ,
}
use emergence_kernel.Uaccess.{end_text, strncpy_from_user, text_loop}

-- What is copied from `src + len` on, with room for n bytes: the memory and the length r.
record IsCopied (n : ℕ) (m : ℕ → ℕ) (dst src len : ℕ) (r : (ℕ → ℕ) × ℕ) : Type 0 where
  more : len ≤ r.1
  room : r.1 ≤ len + n
  ended : r.1 < len + n → m (src + r.1) ≡ 0
  text : (i : ℕ) → len ≤ i → i < r.1 → m (src + i) ≢ 0
  copied :
      (a : ℕ)
      → r.0 a ≡ (if leb (dst + len) a && ltb a (dst + r.1) then m (src + (a - dst)) else m a)

same_byte : (m : ℕ → ℕ) (dst src len a : ℕ) → a ≡ dst + len → m (src + (a - dst)) ≡ m (src + len)
same_byte m dst src len a e = ap m (omega (arith, e))

copied_step :
    (m : ℕ → ℕ) (dst src len end a : ℕ)
    → len < end
    → (dst + end ≤ src) ⊎ (src + end ≤ dst)
    → (if leb (dst + (len + 1)) a && ltb a (dst + end)
        then update m (dst + len) (m (src + len)) (src + (a - dst))
        else update m (dst + len) (m (src + len)) a)
      ≡ (if leb (dst + len) a && ltb a (dst + end) then m (src + (a - dst)) else m a)
copied_step m dst src len end a h apart = elim (ℕ_discrete a (dst + len)) [
  | yes here ↦ ground (arith, here, h, apart, same_byte m dst src len a here)
  | no other ↦ ground (arith, other, h, apart)
]

other_byte :
    (m : ℕ → ℕ) (dst src len n v i : ℕ)
    → (dst + (len + suc n) ≤ src) ⊎ (src + (len + suc n) ≤ dst)
    → i < len + suc n
    → update m (dst + len) v (src + i) ≡ m (src + i)
other_byte m dst src len n v i apart h = ground (arith, apart, h)

IsCopied-step :
    (n : ℕ) (m : ℕ → ℕ) (dst src len : ℕ) (r : (ℕ → ℕ) × ℕ)
    → (dst + (len + suc n) ≤ src) ⊎ (src + (len + suc n) ≤ dst)
    → m (src + len) ≢ 0
    → IsCopied n (update m (dst + len) (m (src + len))) dst src (len + 1) r
    → IsCopied (suc n) m dst src len r
IsCopied-step n m dst src len r apart byte o = record {
  more = omega (arith, o.more);
  room = omega (arith, o.room);
  ended = λ h.
      sym (other_byte m dst src len n (m (src + len)) r.1 apart h) ∙ o.ended (omega (arith, h));
  text = λ i a b. elim (ℕ_discrete i len) [
    | yes first ↦ λ e. byte (ap m (omega (arith, first)) ∙ e)
    | no later ↦ λ e.
        o.text i (omega (arith, a, later)) b
          (other_byte m dst src len n (m (src + len)) i apart (omega (arith, b, o.room)) ∙ e)
  ];
  copied = λ a.
      o.copied a
      ∙ copied_step m dst src len r.1 a (omega (arith, o.more)) (ground (arith, apart, o.room));
}

text_loop-IsCopied :
    (n : ℕ) (m : ℕ → ℕ) (dst src len : ℕ)
    → (dst + (len + n) ≤ src) ⊎ (src + (len + n) ≤ dst)
    → IsCopied n m dst src len (text_loop n m dst src len)
unfolding text_loop
text_loop-IsCopied zero m dst src len apart = record {
  more = omega arith;
  room = omega arith;
  ended = λ h. absurd (omega (arith, h));
  text = λ i a b. absurd (omega (arith, a, b));
  copied = λ a. ground arith;
}
text_loop-IsCopied (suc n) m dst src len apart = elim (Bool-cases (m (src + len) == 0)) [
  | inl nul ↦ rw nul (record {
    more = omega arith;
    room = omega arith;
    ended = λ h. ground (arith, nul);
    text = λ i a b. absurd (omega (arith, a, b));
    copied = λ a. ground arith;
  })
  | inr byte ↦ rw byte (
      IsCopied-step n m dst src len
        (text_loop n (update m (dst + len) (m (src + len))) dst src (len + 1)) apart
        (ground (arith, byte))
        (text_loop-IsCopied n (update m (dst + len) (m (src + len))) dst src (len + 1)
          (ground (arith, apart))))
]

-- A text of less than `count` bytes that was copied: where it ended, and what is in memory.
pub record IsTextCopy (m : ℕ → ℕ) (dst src count : ℕ) (r : ℤ × (ℕ → ℕ)) : Type 0 where
  pub len : ℕ
  pub returned : r.0 ≡ pos len
  pub short : len < count
  pub ended : len + 1 < count → m (src + len) ≡ 0
  pub text : (i : ℕ) → i < len → m (src + i) ≢ 0
  pub bytes : (a : ℕ) → dst ≤ a → a < dst + len → r.1 a ≡ m (src + (a - dst))
  pub nul : r.1 (dst + len) ≡ 0
  pub others : (a : ℕ) → (a < dst) ⊎ (dst + len < a) → r.1 a ≡ m a

end_text-IsTextCopy :
    (m : ℕ → ℕ) (dst src n : ℕ) (r : (ℕ → ℕ) × ℕ)
    → IsCopied n m dst src 0 r
    → IsTextCopy m dst src (suc n) (end_text dst r)
end_text-IsTextCopy m dst src n r o = record {
  len = r.1;
  returned = refl;
  short = omega (arith, o.room);
  ended = λ h. o.ended (omega (arith, h));
  text = λ i h. o.text i (omega arith) h;
  bytes = λ a above below. ground (arith, above, below, o.copied a);
  nul = ground arith;
  others = λ a outside. ground (arith, outside, o.copied a);
}

-- `strncpy_from_user` of a range in user memory, before its last byte, into a buffer apart from it, neither of them NULL: it
-- returns the length of the text, less than `count`, which ends at the first NUL or when the room
-- does; its bytes and a NUL stand in the buffer, and no other byte is written.
pub strncpy_from_user-IsTextCopy :
    (m : ℕ → ℕ) (dst src count : ℕ)
    → IsInnerRange src count
    → 0 < dst
    → 0 < count
    → (dst + count ≤ src) ⊎ (src + count ≤ dst)
    → IsTextCopy m dst src count (strncpy_from_user m dst src count)
unfolding strncpy_from_user
strncpy_from_user-IsTextCopy m dst src zero r d c apart = absurd (omega (arith, c))
strncpy_from_user-IsTextCopy m dst src (suc n) r d c apart =
    let pred : suc n - 1 ≡ n = omega arith in
    rw
      (
        ==-false dst 0 (omega (arith, d)),
        ==-false src 0 (omega (arith, r)),
        ==-false (suc n) 0 (omega arith),
        IsInnerRange-accepted src (suc n) r,
        pred,
      )
      (end_text-IsTextCopy m dst src n (text_loop n m dst src 0)
        (text_loop-IsCopied n m dst src 0 (ground (arith, apart))))
