-- ===== src/Json/Defs.antt =====
-- JSON documents.
use Prim.Native.Nat.{ℕ}
use vendorfake.Prelude.{String, List, [], ◌∷◌, map, Bool, ◌≡◌, refl, ap}
use vendorfake.Dict.{Dict}

-- `negsuc n` is -(n + 1).
pub data ℤ : Type 0 where
  pos : ℕ → ℤ
  negsuc : ℕ → ℤ

-- What `json.loads` gives: objects keep the order of their fields.
mutual
  pub data Fields : Type 0 where
    field : String → Value → Fields → Fields
    end : Fields

  pub data Value : Type 0 where
    obj : Fields → Value
    arr : Items → Value
    str : String → Value
    int : ℤ → Value
    bool : Bool → Value
    null : Value

  pub data Items : Type 0 where
    cons : Value → Items → Items
    nil : Items

-- The fields of an object as a dictionary.
abbrev pub to_dict : Fields → Dict Value
to_dict end = []
to_dict (field k v fs) = (k, v) ∷ to_dict fs

abbrev pub of_dict : Dict Value → Fields
of_dict [] = end
of_dict ((k, v) ∷ d) = field k v (of_dict d)

abbrev pub of_list : List Value → Items
of_list [] = nil
of_list (v ∷ vs) = cons v (of_list vs)

abbrev pub strs : List String → Value
strs xs = arr (of_list (map str xs))

-- A dict display `{"k": v, ...}`.
abbrev pub document : Dict Value → Value
document d = obj (of_dict d)

pub to_dict-of_dict : (d : Dict Value) → to_dict (of_dict d) ≡ d
to_dict-of_dict [] = refl
to_dict-of_dict ((k, v) ∷ d) = ap (λ e. (k, v) ∷ e) (to_dict-of_dict d)
