-- ===== src/Bridge/Beats.antt =====
-- The beats of a streaming call: which words the callback's loop visits, and when it leaves
-- (tlms/tlm_adapters/tlm2wishbone.hpp).
use deltamodels.Base.{ℕ, zero, suc, ◌+◌, ◌-◌, ◌*◌, ◌^◌, ◌<◌, ◌≡◌, refl, ap, ◌∙◌, none, arith}
use deltamodels.Bridge.{Bridge, WbState, resume}

-- The bridge after `n` acknowledged beats.
pub resumes : ℕ → WbState → Bridge → Bridge
resumes zero d b = b
resumes (suc n) d b = resumes n d (resume d b)

-- Where the callback stands when `i` beats are done and the streaming width is not used up.
pub record Progress (i : ℕ) (b b' : Bridge) : Type 0 where
  pub left : b'.wid ≡ b.wid - i * b.len
  pub word : b'.adr ≡ b.adr + i * b.len
  pub buffer : b'.ptr ≡ b.ptr + i * b.len
  pub same_len : b'.len ≡ b.len
  pub still : b'.waiting ≡ b.waiting

resume-Progress :
    (d : WbState) (b : Bridge)
    → b.len < b.wid
    → b.wid < 2 ^ 32
    → b.adr + b.len < 2 ^ 64
    → Progress 1 b (resume d b)
unfolding resume
resume-Progress d b more small room = ground arith

Progress-trans : (i : ℕ) (b c e : Bridge) → Progress 1 b c → Progress i c e → Progress (suc i) b e
Progress-trans i b c e p q =
    let beats = ap (λ (t : ℕ). i * t) p.same_len in
    record {
      left = omega (arith, p.left, q.left, beats);
      word = omega (arith, p.word, q.word, beats);
      buffer = omega (arith, p.buffer, q.buffer, beats);
      same_len = q.same_len ∙ p.same_len;
      still = q.still ∙ p.still;
    }

-- While a 32-bit streaming width is not used up the callback stays in its loop: after `i` beats the
-- buffer and the bus address have both advanced by `i` times the data length, if that length is not
-- 0 and the address does not pass 2^64. The bus address counts words, so the beats are a data
-- length of words apart.
pub resumes-Progress :
    (i : ℕ) (d : WbState) (b : Bridge)
    → 0 < b.len
    → i * b.len < b.wid
    → b.wid < 2 ^ 32
    → b.adr + i * b.len < 2 ^ 64
    → Progress i b (resumes i d b)
unfolding resumes
resumes-Progress zero d b pos more small room = record {
  left = omega arith;
  word = omega arith;
  buffer = omega arith;
  same_len = refl;
  still = refl;
}
resumes-Progress (suc i) d b pos more small room =
    let first = resume-Progress d b (omega arith) small (omega arith) in
    let beats = ap (λ (t : ℕ). i * t) first.same_len in
    Progress-trans i b (resume d b) _ first (
      resumes-Progress i d (resume d b) (omega (arith, first.same_len))
        (omega (arith, first.left, beats)) (omega (arith, first.left))
        (omega (arith, first.word, beats)))

resumes-suc : (k : ℕ) (d : WbState) (b : Bridge) → resumes (suc k) d b ≡ resume d (resumes k d b)
unfolding resumes
resumes-suc zero d b = refl
resumes-suc (suc k) d b = resumes-suc k d (resume d b)

pub resume_last : (d : WbState) (b : Bridge) → b.wid ≡ b.len → (resume d b).waiting ≡ none
unfolding resume
resume_last d b e = ground arith

pub resume_last-state : (d : WbState) (b : Bridge) → b.wid ≡ b.len → (resume d b).state ≡ b.state
unfolding resume
resume_last-state d b e = ground arith

-- A 32-bit streaming width of `k + 1` data lengths, not 0, takes `k + 1` beats, if the address does
-- not pass 2^64 on the way: the callback is still waiting after `k` acknowledges and has returned
-- after one more.
pub resumes_finish :
    (k : ℕ) (d : WbState) (b : Bridge)
    → 0 < b.len
    → b.wid ≡ suc k * b.len
    → b.wid < 2 ^ 32
    → b.adr + b.wid < 2 ^ 64
    → ((resumes k d b).waiting ≡ b.waiting) × ((resumes (suc k) d b).waiting ≡ none)
resumes_finish k d b pos e small room =
    let p = resumes-Progress k d b pos (omega arith) small (omega arith) in
    (p.still, rw resumes-suc (resume_last d _ (omega (arith, p.left, p.same_len))))

resume_wraps :
    (d : WbState) (b : Bridge)
    → b.wid < b.len
    → b.len < 2 ^ 32
    → ((resume d b).waiting ≡ b.waiting) × ((resume d b).wid ≡ 2 ^ 32 + b.wid - b.len)
unfolding resume
resume_wraps d b less small = ground arith

-- A 32-bit streaming width that is no multiple of the data length is not where the callback stops:
-- at the beat that passes it the width left wraps round to 2^32 less the excess, and the callback
-- goes on waiting.
pub resumes_overrun :
    (k : ℕ) (d : WbState) (b : Bridge)
    → b.len < 2 ^ 32
    → k * b.len < b.wid
    → b.wid < suc k * b.len
    → b.wid < 2 ^ 32
    → b.adr + b.wid < 2 ^ 64
    → ((resumes (suc k) d b).waiting ≡ b.waiting)
      × ((resumes (suc k) d b).wid ≡ 2 ^ 32 + b.wid - suc k * b.len)
resumes_overrun k d b short more over small room =
    let p = resumes-Progress k d b (omega arith) more small (omega arith) in
    let last =
      resume_wraps d (resumes k d b) (omega (arith, p.left, p.same_len))
        (omega (arith, p.same_len)) in
    rw resumes-suc (last.0 ∙ p.still, omega (arith, last.1, p.left, p.same_len))
