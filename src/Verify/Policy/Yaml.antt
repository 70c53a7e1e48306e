-- ===== src/Verify/Policy/Yaml.antt =====
-- What `yaml.safe_load` gives, as far as a policy is read: the keys of a mapping are texts and stand
-- once, a number that is no finite float from 0 on is `other_number`.
use Prim.Native.String.{String}
use text.Mathlib.Text.{◌==◌ as str_eq}
use deployguardai.Prelude.{ℕ, Bool, true, ◌&&◌, Option, none, some, List, if◌then◌else◌}
use deployguardai.Prelude.Texts.{contains}

mutual
  pub data Yaml : Type 0 where
    null other_number opaque : Yaml
    boolean : Bool → Yaml
    number : (rate : ℕ) → Yaml
    str : String → Yaml
    sequence : Yamls → Yaml
    object : Fields → Yaml

  pub data Yamls : Type 0 where
    nil : Yamls
    cons : Yaml → Yamls → Yamls

  pub data Fields : Type 0 where
    end : Fields
    field : String → Yaml → Fields → Fields

-- `fields.get(key)`
unfoldable pub get : String → Fields → Option Yaml
get key end = none
get key (field k v fs) = if str_eq k key then some v else get key fs

-- `set(fields) - allowed` is empty.
unfoldable pub only_fields : (allowed : List String) → Fields → Bool
only_fields allowed end = true
only_fields allowed (field k v fs) = contains allowed k && only_fields allowed fs
