-- ===== src/Tests/Texts.antt =====
-- String forms of ids and times for the samples: as many dashes, and seven more.
use Prim.Native.String.{String, [], ◌∷◌}
use inventory_management_api.Base.{
  ℕ, zero, suc, ◌+◌, ◌-◌, ◌≡◌, ◌≢◌, refl, ap, arith, Option, some, none, leb, if◌then◌else◌,
}
use inventory_management_api.Models.{Uuid}
use inventory_management_api.Websockets.Listeners.{Texts}

unfoldable pub dashes : ℕ → String
dashes zero = "-------"
dashes (suc n) = "-" ∷ dashes n

abbrev size : String → ℕ
size [] = 0
size (c ∷ s) = size s + 1

size-dashes : (n : ℕ) → size (dashes n) ≡ n + 7
unfolding dashes
size-dashes zero = refl
size-dashes (suc n) = omega (arith, size-dashes n)

-- The number of dashes past the first seven.
abbrev pub undashes : String → Option ℕ
undashes s = if leb 7 (size s) then some (size s - 7) else none

undashes_lem : (s : String) (n : ℕ) → size s ≡ n + 7 → undashes s ≡ some n
undashes_lem s n e = rw e (ground arith)

pub undashes-dashes : (n : ℕ) → undashes (dashes n) ≡ some n
undashes-dashes n = undashes_lem (dashes n) n (size-dashes n)

size-global : size "global" ≡ 6
size-global = refl

pub dashes_not_global : (u : Uuid) → dashes u ≢ "global"
dashes_not_global u e = omega (arith, ap size e, size-dashes u, size-global)

instance abbrev pub sample_texts : Texts
sample_texts = record {
  str_uuid = dashes;
  isoformat = dashes;
  not_global = dashes_not_global;
  uuid_of = undashes;
  uuid_of-str_uuid = undashes-dashes;
}
