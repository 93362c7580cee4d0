-- ===== src/Stats/Counts.antt =====
-- What the counts by address read after an update, without the build tag `fast`.
use trakx.Common.{ℕ, ◌+◌, ◌-◌, ◌%◌, ◌^◌, ◌≡◌, ◌∙◌, false, ◌==◌, arith, ap, Bool-cases, inl, inr}
use trakx.Common.Assoc.{
  delete, weight, Distinct, get-set, get-delete_self, get-delete_ne, set-Distinct, delete-Distinct,
}
use trakx.Storage.Types.{Addr, Addr-discrete}
use trakx.Stats.{IpStats, count, inc, dec, remove}
use mathlib.Core.Logic.{ite}

pub count-inc :
    (j ip : Addr) (m : IpStats)
    → count j (inc false ip m) ≡ ite (Addr-discrete j ip) ((count ip m + 1) % 2 ^ 16) (count j m)
unfolding inc
count-inc j ip m = ground (arith, get-set Addr-discrete j ip ((count ip m + 1) % 2 ^ 16) m)

pub inc-Distinct :
    (ip : Addr) (m : IpStats) → Distinct Addr-discrete m → Distinct Addr-discrete (inc false ip m)
unfolding inc
inc-Distinct ip m h = set-Distinct Addr-discrete ip _ m h

count-dec :
    (j ip : Addr) (m : IpStats)
    → count j (dec false ip m)
      ≡ ite (Addr-discrete j ip) ((count ip m + (2 ^ 16 - 1)) % 2 ^ 16) (count j m)
unfolding dec
count-dec j ip m =
    ground (arith, get-set Addr-discrete j ip ((count ip m + (2 ^ 16 - 1)) % 2 ^ 16) m)

dec-Distinct :
    (ip : Addr) (m : IpStats) → Distinct Addr-discrete m → Distinct Addr-discrete (dec false ip m)
unfolding dec
dec-Distinct ip m h = set-Distinct Addr-discrete ip _ m h

count-delete :
    (j ip : Addr) (m : IpStats)
    → Distinct Addr-discrete m
    → count ip m ≡ 0
    → count j (delete Addr-discrete ip m) ≡ count j m
count-delete j ip m d z = elim (Addr-discrete j ip) [
  | yes e ↦ rw e (rw (get-delete_self Addr-discrete ip m d) (omega arith))
  | no n ↦ ap (weight (λ (k : ℕ). k)) (get-delete_ne Addr-discrete j ip m n)
]

-- `Remove` is `Dec` to every reader of the counts.
pub count-remove :
    (j ip : Addr) (m : IpStats)
    → Distinct Addr-discrete m
    → count j (remove false ip m)
      ≡ ite (Addr-discrete j ip) ((count ip m + (2 ^ 16 - 1)) % 2 ^ 16) (count j m)
unfolding remove
count-remove j ip m d = elim (Bool-cases (count ip (dec false ip m) == 0)) [
  | inl z ↦
      rw z
        (count-delete j ip (dec false ip m) (dec-Distinct ip m d) (ground arith) ∙ count-dec j ip m)
  | inr n ↦ rw n (count-dec j ip m)
]

pub remove-Distinct :
    (ip : Addr) (m : IpStats)
    → Distinct Addr-discrete m
    → Distinct Addr-discrete (remove false ip m)
unfolding remove
remove-Distinct ip m d = elim (Bool-cases (count ip (dec false ip m) == 0)) [
  | inl z ↦ rw z (delete-Distinct Addr-discrete ip _ (dec-Distinct ip m d))
  | inr n ↦ rw n (dec-Distinct ip m d)
]
