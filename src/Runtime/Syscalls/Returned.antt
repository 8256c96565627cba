-- ===== src/Runtime/Syscalls/Returned.antt =====
-- `sol_set_return_data` and `sol_get_return_data`: what one program returns, another reads.
use Prim.Native.Nat.{min}
use sbpf.Base.{ℕ, ◌+◌, ◌≤◌, ◌<◌, ◌≡◌, ◌≢◌, ◌∙◌, sym, ap, subst, arith, inl, inr, ◌⊎◌}
use sbpf.Base.{
  List, [], length, take, length-take, Bool, true, false, Bool-cases, ltb-false→le, ◌==◌, ltb,
  if◌then◌else◌,
}
use sbpf.Base.{some}
use sbpf.Base.Words.{length-to_le_bytes}
use sbpf.Errors.{ok, ok-injective, err-ne-ok}
use sbpf.Vm.Memory.{read_bytes}
use sbpf.Vm.Memory.Laws.{read_bytes-write_bytes}
use sbpf.Vm.Memory.Frame.{read_bytes-write_bytes_apart}
use sbpf.Vm.Memory.Bytes.{length-read_bytes}
use sbpf.Runtime.Stateful.{◌>>=◌, >>=-eq-ok, pure, fail}
use sbpf.Runtime.Store.{Address}
use sbpf.Runtime.Config.{ExecutionCost}
use sbpf.Runtime.Syscalls.{
  Machine, Syscall, ReturnData, consume_units, load, store, copy_out, address_bytes,
  max_return_data, sol_set_return_data, sol_get_return_data,
}
use sbpf.Runtime.Syscalls.Laws.{consume_units-eq-ok, load-eq-ok, store-eq-ok}

-- What a program has returned: the bytes at an address of its memory, no more than the bound, and
-- who it is.
pub record IsReturned (m : Machine) (addr len : ℕ) (program_id : Address) (r : ReturnData)
    : Type 0 where
  pub bytes : List ℕ
  pub kept : r ≡ some (program_id, bytes)
  pub size : length bytes ≡ len
  pub bound : len ≤ max_return_data
  pub lies : len ≢ 0 → read_bytes m.memory addr len ≡ ok bytes

-- What the caller finds: as many of the bytes as fit in its buffer, and who returned them.
pub record IsCopied (m' : Machine) (buf_addr n program_id_addr : ℕ) (program_id : Address)
    (bytes : List ℕ) : Type 0 where
  pub id : read_bytes m'.memory program_id_addr 32 ≡ ok (address_bytes program_id)
  pub front :
      (buf_addr + n ≤ program_id_addr) ⊎ (program_id_addr + 32 ≤ buf_addr)
      → read_bytes m'.memory buf_addr n ≡ ok (take n bytes)

copy_out-IsCopied :
    (buf_addr n program_id_addr : ℕ) (costs : ExecutionCost) (program_id : Address) (bytes : List ℕ)
    (m m' : Machine) {u : Unit {0}}
    → n ≤ length bytes
    → copy_out buf_addr program_id_addr costs program_id bytes n m ≡ (m', ok u)
    → IsCopied m' buf_addr n program_id_addr program_id bytes
unfolding copy_out
copy_out-IsCopied buf_addr n program_id_addr costs program_id bytes m m' fits h =
    let (m1, u1, e1, h1) = >>=-eq-ok (consume_units _) _ h in
    let (m2, u2, e2, h2) = >>=-eq-ok (store buf_addr (take n bytes)) _ h1 in
    let (kept2, first) = store-eq-ok buf_addr (take n bytes) m1 m2 e2 in
    let (kept3, second) = store-eq-ok program_id_addr (address_bytes program_id) m2 m' h2 in
    let size : length (take n bytes) ≡ n = length-take n bytes fits in
    let wide : length (address_bytes program_id) ≡ 32 = length-to_le_bytes 32 program_id in
    record {
      id =
          subst (λ k. read_bytes m'.memory program_id_addr k ≡ ok (address_bytes program_id)) wide
            (read_bytes-write_bytes m2.memory program_id_addr (address_bytes program_id) second);
      front = λ d.
          read_bytes-write_bytes_apart m2.memory program_id_addr (address_bytes program_id) buf_addr
            n (omega (arith, wide, d)) second
          ∙ subst (λ k. read_bytes m2.memory buf_addr k ≡ ok (take n bytes)) size
              (read_bytes-write_bytes m1.memory buf_addr (take n bytes) first);
    }

loaded-IsReturned :
    (addr len : ℕ) (program_id : Address) (m n o : Machine) {v : ℕ} {r : ReturnData}
    → n.memory ≡ m.memory
    → len ≤ max_return_data
    → ◌>>=◌ {B = ℕ × ReturnData} (load addr len) (λ bytes. pure (0, some (program_id, bytes))) n
      ≡ (o, ok (v, r))
    → IsReturned m addr len program_id r
unfolding pure
loaded-IsReturned addr len program_id m n o {v} {r} same small h =
    let (n1, bytes, e, g) = >>=-eq-ok (load addr len) _ h in
    let (kept, there) = load-eq-ok addr len n n1 e in
    record {
      bytes = bytes;
      kept = sym (ap (λ p. p.1) (ok-injective (ap (λ p. p.1) g)));
      size = length-read_bytes n.memory addr len there;
      bound = small;
      lies = λ ne. subst (λ memory. read_bytes memory addr len ≡ ok bytes) same there;
    }

sol_set_return_data-IsReturned :
    (addr len r2 r3 r4 : ℕ) (costs : ExecutionCost) (program_id : Address) (m m' : Machine) {v : ℕ}
    {r : ReturnData}
    → sol_set_return_data (addr, len, r2, r3, r4) costs program_id m ≡ (m', ok (v, r))
    → IsReturned m addr len program_id r
unfolding sol_set_return_data fail pure
sol_set_return_data-IsReturned addr len r2 r3 r4 costs program_id m m' {v} {r} h =
    let (m1, u, e, g) = >>=-eq-ok (consume_units _) _ h in
    let (same, paid) = consume_units-eq-ok _ m m1 e in
    elim (Bool-cases (ltb max_return_data len)) [
      | inl large ↦ absurd (err-ne-ok (ap (λ p. p.1) (rw large at g)))
      | inr small ↦
          let bounded = ltb-false→le small in
          elim (Bool-cases (len == 0)) [
            | inl none_left ↦
                let q = ok-injective (ap (λ p. p.1) (rw (small, none_left) at g)) in
                record {
                  bytes = [];
                  kept = sym (ap (λ p. p.1) q);
                  size = ground arith;
                  bound = bounded;
                  lies = λ ne. absurd (ground arith);
                }
            | inr some_left ↦
                loaded-IsReturned addr len program_id m m1 m' same bounded
                  (rw (small, some_left) at g)
          ]
    ]

branch :
    (b : Bool) (p : Syscall (Unit {0})) (m m' : Machine) {u : Unit {0}}
    → (if b then pure tt else p) m ≡ (m', ok u)
    → (b ≡ false → p m ≡ (m', ok u)) × (b ≡ true → m ≡ m')
unfolding pure
branch true p m m' h = (λ e. cc, λ e. ap (λ q. q.0) h)
branch false p m m' h = (λ e. h, λ e. cc)

sol_get_return_data-IsCopied :
    (buf_addr buf_len program_id_addr r3 r4 : ℕ) (costs : ExecutionCost) (program_id : Address)
    (bytes : List ℕ) (m m' : Machine) {v : ℕ}
    → sol_get_return_data
        (buf_addr, buf_len, program_id_addr, r3, r4)
        costs
        (some (program_id, bytes))
        m
      ≡ (m', ok v)
    → (v ≡ length bytes)
      × (0 < min buf_len (length bytes)
          → IsCopied m' buf_addr (min buf_len (length bytes)) program_id_addr program_id bytes)
      × (min buf_len (length bytes) ≡ 0 → m'.memory ≡ m.memory)
unfolding sol_get_return_data pure
sol_get_return_data-IsCopied buf_addr buf_len program_id_addr r3 r4 costs program_id bytes m m' h =
    let n = min buf_len (length bytes) in
    let (m1, u1, e1, h1) = >>=-eq-ok (consume_units _) _ h in
    let (same, paid) = consume_units-eq-ok _ m m1 e1 in
    let (m2, u2, e2, h2) =
      >>=-eq-ok
        (if n == 0 then pure tt else copy_out buf_addr program_id_addr costs program_id bytes n) _
        h1 in
    let last : m2 ≡ m' = ap (λ p. p.0) h2 in
    let (busy, idle) = branch (n == 0) _ m1 m2 e2 in
    (
      sym (ok-injective (ap (λ p. p.1) h2)),
      λ some_left.
          subst (λ o. IsCopied o buf_addr n program_id_addr program_id bytes) last
            (copy_out-IsCopied buf_addr n program_id_addr costs program_id bytes m1 m2 (omega arith)
              (busy (ground arith))),
      λ none_left. ap (λ q. q.memory) (sym last ∙ sym (idle (ground arith))) ∙ same,
    )

-- What a program returns by a call that succeeds is not longer than 1024 bytes, and a later call of
-- another to read it, on whatever memory, that succeeds returns its full length; where the buffer and the bytes are
-- not empty, the address of the program lies in the memory where it was asked for, and before it, where the two do not
-- overlap, as many of the bytes as fit in the buffer, and else the memory stays as it is.
pub sol_get_return_data-sol_set_return_data :
    (addr len r2 r3 r4 buf_addr buf_len program_id_addr q3 q4 : ℕ) (costs : ExecutionCost)
    (program_id : Address) (m m1 m2 m3 : Machine) {v w : ℕ} {r : ReturnData}
    → sol_set_return_data (addr, len, r2, r3, r4) costs program_id m ≡ (m1, ok (v, r))
    → sol_get_return_data (buf_addr, buf_len, program_id_addr, q3, q4) costs r m2 ≡ (m3, ok w)
    → (bytes : List ℕ) × (length bytes ≡ len)
      × (len ≤ 1024)
      × (len ≢ 0 → read_bytes m.memory addr len ≡ ok bytes)
      × (w ≡ len)
      × (0 < min buf_len len
          → IsCopied m3 buf_addr (min buf_len len) program_id_addr program_id bytes)
      × (min buf_len len ≡ 0 → m3.memory ≡ m2.memory)
sol_get_return_data-sol_set_return_data addr len r2 r3 r4 buf_addr buf_len program_id_addr q3 q4
      costs program_id m m1 m2 m3 {w = w} {r = r} set got =
    let s = sol_set_return_data-IsReturned addr len r2 r3 r4 costs program_id m m1 set in
    let (value, copied, untouched) =
      sol_get_return_data-IsCopied buf_addr buf_len program_id_addr q3 q4 costs program_id s.bytes
        m2 m3
        (subst
          (λ o.
            sol_get_return_data (buf_addr, buf_len, program_id_addr, q3, q4) costs o m2
            ≡ (m3, ok w))
          s.kept got) in
    (
      s.bytes,
      s.size,
      s.bound,
      s.lies,
      value ∙ s.size,
      subst
          (λ k.
            0 < min buf_len k
            → IsCopied m3 buf_addr (min buf_len k) program_id_addr program_id s.bytes)
          s.size copied,
      subst (λ k. min buf_len k ≡ 0 → m3.memory ≡ m2.memory) s.size untouched,
    )
