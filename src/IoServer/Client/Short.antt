-- ===== src/IoServer/Client/Short.antt =====
-- About the messages that the client functions of src/io_server/io_server.c send.
use mathlib.Core.Path.{subst}
use Prim.Native.Nat.{min}
use armv4_kernel.Prelude.{
  ℕ, zero, suc, ◌+◌, ◌-◌, ◌<◌, ◌≤◌, ◌≡◌, ◌⊎◌, refl, ap₂, ◌∙◌, true, some, List, [], ◌∷◌, arith, ltb,
  leb, ◌++◌, if◌then◌else◌,
}
use armv4_kernel.CString.{Bytes, memcpy}
use armv4_kernel.CString.Copy.{memcpy_lem}
use armv4_kernel.RingBuffer.Contents.{contents}
use armv4_kernel.IoServer.{slice, msg_max_data_len, Action, io_server_step, IoServer}
use armv4_kernel.IoServer.Keep.{panicked, replied, IsServing, io_server_step-Served}
use armv4_kernel.IoServer.Client.{putstr_msg}

slice-shift :
    (i n k : ℕ) (a b : Bytes)
    → ((j : ℕ) → i ≤ j → j < i + n → a j ≡ b (k + j))
    → slice i n a ≡ slice (k + i) n b
slice-shift i zero k a b same = refl
slice-shift i (suc n) k a b same =
    let z : k + i + 1 ≡ k + (i + 1) = omega arith in
    ap₂ ◌∷◌ (same i (omega arith) (omega arith))
      (rw z (slice-shift (i + 1) n k a b (λ j p q. same j (omega arith) (omega arith))))

copied_byte :
    (to str n : ℕ) (mem : Bytes) (j : ℕ)
    → (to ≤ str) ⊎ (str + n ≤ to)
    → j < 0 + n
    → memcpy to str n mem (to + j) ≡ mem (str + j)
copied_byte to str n mem j apart q =
    let here : to + j - to ≡ j = omega arith in
    let from : leb to (to + j) ≡ true = ground arith in
    let below : ltb (to + j) (to + n) ≡ true = ground (arith, q) in
    memcpy_lem to str n mem (to + j) apart ∙ rw (from, below, here) refl

-- `Putstr` sends the first bytes of the string, as they were, at most 31 of them, where the string does
-- not lie in front of the message and overlap it.
sent_lem :
    (to str len : ℕ) (mem : Bytes)
    → (to ≤ str) ⊎ (str + min len msg_max_data_len ≤ to)
    → ((putstr_msg to str len mem).len ≡ min len msg_max_data_len)
      × (slice 0 (putstr_msg to str len mem).len (putstr_msg to str len mem).bytes
          ≡ slice str (min len msg_max_data_len) mem)
unfolding putstr_msg
sent_lem to str len mem apart =
    let n : ℕ = if ltb len msg_max_data_len then len else msg_max_data_len in
    let n_eq : n ≡ min len msg_max_data_len = ground arith in
    let z : str + 0 ≡ str = omega arith in
    let apart' : (to ≤ str) ⊎ (str + n ≤ to) = omega (arith, apart, n_eq) in
    (
      n_eq,
      slice-shift 0 n str (λ i. memcpy to str n mem (to + i)) mem
            (λ j p q. copied_byte to str n mem j apart' q)
          ∙ ap₂ (λ a b. slice a b mem) z n_eq,
    )

-- A call of `Putstr` on a server where no byte waits for a transmitter that is ready, with a string that
-- does not lie in front of the message and overlap it: the server handles the message without an access
-- out of bounds, and the bytes that go out, followed by those that the output ring then holds, are those
-- that it held, followed by the first bytes of the string, at most 31; or by none where the server panics.
pub putstr_msg-Served :
    (sender to str len : ℕ) (mem : Bytes) {s : IoServer}
    → IsServing s
    → (to ≤ str) ⊎ (str + min len msg_max_data_len ≤ to)
    → (acts : List Action) × (s' : IoServer) × (io_server_step sender (putstr_msg to str len mem) s
        ≡ some (acts, s'))
      × IsServing s'
      × (contents s.rb_out
            ++ (if panicked acts then [] else slice str (min len msg_max_data_len) mem)
          ≡ replied acts ++ contents s'.rb_out)
unfolding putstr_msg
putstr_msg-Served sender to str len mem {s} h apart =
    let (n_eq, bytes_eq) = sent_lem to str len mem apart in
    let (acts, s', run, served) =
      io_server_step-Served sender (putstr_msg to str len mem) h (omega (arith, n_eq)) in
    (
      acts,
      s',
      run,
      served.serving,
      subst
          (λ l.
            contents s.rb_out ++ (if panicked acts then [] else l)
            ≡ replied acts ++ contents s'.rb_out)
          bytes_eq served.output,
    )
