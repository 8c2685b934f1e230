-- ===== src/Disk.antt =====
-- The file system, which `os.ReadFile`, `os.Open` and `os.WriteFile` reach, and the bytes that are in
-- files. Both are parameters of the model.
pub mod Memory
use tmctl.Base.{String, Option, none, some, ◌≡◌, ◌==◌, if◌then◌else◌, String_eq}

-- What `os.ReadFile` gives: `os.IsNotExist` tells `missing` from the other errors.
pub data Read {ℓ} (B : Type ℓ) : Type ℓ where
  found : B → Read B
  missing : Read B
  failed : String → Read B

pub record Disk : Type 1 where
  pub State : Type 0
  pub Bytes : Type 0
  pub nothing : Bytes
  pub append : Bytes → Bytes → Bytes
  pub of_string : String → Bytes
  pub read : State → String → Read Bytes
  -- `os.WriteFile`: the error, if there is one, and the files afterwards.
  pub write : State → String → Bytes → Option String × State

pub record IsLawful (d : Disk) : Type 0 where
  pub append-nothing : (a : d.Bytes) → d.append a d.nothing ≡ a
  pub nothing-append : (a : d.Bytes) → d.append d.nothing a ≡ a
  pub append_assoc : (a b c : d.Bytes) → d.append (d.append a b) c ≡ d.append a (d.append b c)
  -- A write that reports no error replaces that file and no other.
  pub read-write :
      (s t : d.State) (p q : String) (b : d.Bytes)
      → d.write s p b ≡ (none, t)
      → d.read t q ≡ (if p == q then found b else d.read s q)
