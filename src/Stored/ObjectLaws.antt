-- ===== src/Stored/ObjectLaws.antt =====
-- About objects that are used as maps.
use acp_webui.Common.{
  String, Bool, true, false, not, Option, none, some, List, [], ◌∷◌, if◌then◌else◌, ◌≡◌, ◌≢◌, refl,
  ap, ◌∙◌, arith, ◌==◌, eq_iff, eq_refl, is_empty, All,
}
use acp_webui.Common.Keyed.Laws.{
  HasDistinctKeys, at_key, at_key-upsert, filter-HasDistinctKeys, upsert-HasDistinctKeys,
}
use acp_webui.Types.{Json}
use acp_webui.Stored.Objects.{
  Codec, Storage, entry_key, parse_raw, put, read_json, remove, set_item, value?, value_of,
}

module _ {ℓ} {A : Type ℓ} where
  abbrev pub HasKeysOnce : List (String × A) → Type 0
  HasKeysOnce map = HasDistinctKeys {A = String × A} entry_key map

  value?-if :
      (b : Bool) (o p : Option (String × A))
      → value? (if b then o else p) ≡ (if b then value? o else value? p)
  value?-if true o p = refl
  value?-if false o p = refl

  pub value_of-put :
      (k key : String) (value : A) (map : List (String × A))
      → value_of k (put key value map) ≡ (if key == k then some value else value_of k map)
  unfolding put
  value_of-put k key value map =
      ap value? (at_key-upsert entry_key k (key, value) map)
      ∙ value?-if (key == k) (some (key, value)) (at_key entry_key k map)

  pub put-HasKeysOnce :
      (key : String) (value : A) (map : List (String × A))
      → HasKeysOnce map
      → HasKeysOnce (put key value map)
  unfolding put
  put-HasKeysOnce key value map v = upsert-HasDistinctKeys entry_key (key, value) map v

  pub remove-HasKeysOnce :
      (key : String) (map : List (String × A)) → HasKeysOnce map → HasKeysOnce (remove key map)
  remove-HasKeysOnce key map v =
      filter-HasDistinctKeys entry_key (λ e. not (entry_key e == key)) map v

  pub value_of-remove :
      (k key : String) (map : List (String × A))
      → value_of k (remove key map) ≡ (if key == k then none else value_of k map)
  value_of-remove k key [] = ground arith
  value_of-remove k key ((name, value) ∷ map) =
      ground (arith, value_of-remove k key map, eq_iff name key, eq_iff name k, eq_iff key k)

  pub value_of-absent :
      (k : String) (map : List (String × A))
      → All (λ e. entry_key e ≢ k) map
      → value_of k map ≡ none
  value_of-absent k [] h = refl
  value_of-absent k ((name, value) ∷ map) (apart, h) =
      ground (arith, value_of-absent k map h, eq_iff name k)

-- What is written under a key is read there, if `JSON` reads what it wrote.
pub read_json-set_item :
    (c : Codec) (key : String) (value : Json) (storage : Storage)
    → c.parse (c.stringify value) ≡ some value
    → is_empty (c.stringify value) ≡ false
    → read_json c key (set_item key (c.stringify value) storage) ≡ some value
unfolding read_json
read_json-set_item c key value storage faithful ink =
    let there : set_item key (c.stringify value) storage key ≡ some (c.stringify value) =
      rw (eq_refl key) refl in
    ap (parse_raw c) there ∙ rw ink faithful

pub read_json_other :
    (c : Codec) (key other : String) (value : String) (storage : Storage)
    → (key == other) ≡ false
    → read_json c other (set_item key value storage) ≡ read_json c other storage
unfolding read_json
read_json_other c key other value storage apart =
    let there : set_item key value storage other ≡ storage other = rw apart refl in
    ap (parse_raw c) there
