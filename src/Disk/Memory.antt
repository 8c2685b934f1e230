-- ===== src/Disk/Memory.antt =====
-- A disk in memory, for tests: files by path, and a set of paths that cannot be written. What is in
-- a file is a list of pieces, each a text or a value that a marshaller has put there.
use mathlib.Core.List.{append-nil, append_assoc as list_append_assoc}
use tmctl.Base.{
  String, Option, none, some, List, [], ◌∷◌, ◌++◌, ◌≡◌, refl, Dict, lookup, insert, lookup-insert,
  arith, ◌==◌, any, if◌then◌else◌, String_eq,
}
use tmctl.Disk.{Read, found, missing, Disk, IsLawful}

pub data Piece {ℓ} (A : Type ℓ) : Type ℓ where
  plain : String → Piece A
  value : A → Piece A

pub record Files (A : Type 0) : Type 0 where
  pub contents : Dict (List (Piece A))
  pub read_only : List String

unfoldable pub read_memory : {A : Type 0} → Files A → String → Read (List (Piece A))
read_memory s p = elim (lookup p s.contents) [ none ↦ missing | some b ↦ found b ]

unfoldable pub write_memory :
    {A : Type 0} → Files A → String → List (Piece A) → Option String × Files A
write_memory s p b =
    if any (λ q. q == p) s.read_only
    then (some "permission denied", s)
    else (none, record s { contents = insert p b s.contents })

abbrev pub memory : Type 0 → Disk
memory A = record {
  State = Files A;
  Bytes = List (Piece A);
  nothing = [];
  append = ◌++◌;
  of_string = λ s. plain s ∷ [];
  read = read_memory;
  write = write_memory;
}

read_memory-write_memory :
    {A : Type 0} (s t : Files A) (p q : String) (b : List (Piece A))
    → write_memory s p b ≡ (none, t)
    → read_memory t q ≡ (if p == q then found b else read_memory s q)
unfolding read_memory write_memory
read_memory-write_memory s t p q b h = ground (arith, lookup-insert p q b s.contents)

pub memory-IsLawful : (A : Type 0) → IsLawful (memory A)
memory-IsLawful A = record {
  append-nothing = append-nil;
  nothing-append = λ a. refl;
  append_assoc = list_append_assoc;
  read-write = read_memory-write_memory;
}
