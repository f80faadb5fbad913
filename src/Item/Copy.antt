-- ===== src/Item/Copy.antt =====
-- item_copy() of libxcm/tp/tls/item.c.
use xcm.Base.{◌≡◌, refl, sym, inl, inr, Bool-cases, true, false, none, some, Str, arith}
use xcm.Errno.{Outcome}
use xcm.Item.{
  Item, item_init, item_is_set, item_deinit, item_load, item_copy, item_unsensitive_data,
}

-- An item has data exactly if it is set, and is sensitive only if it is set.
pub record IsValid (item : Item) : Type 0 where
  pub with_data : item_is_set item ≡ true → (s : Str) × (item.item_data ≡ some s)
  pub unset : item_is_set item ≡ false → (item.item_data ≡ none) × (item.sensitive ≡ false)

deinit-unset :
    (item : Item)
    → IsValid item
    → ((item_deinit item).item_data ≡ none) × ((item_deinit item).sensitive ≡ false)
unfolding item_deinit item_init
deinit-unset item v = elim (Bool-cases (item_is_set item)) [
  | inl set ↦ (ground (arith, set), ground (arith, set))
  | inr unset ↦ (ground (arith, unset, v.unset unset), ground (arith, unset, v.unset unset))
]

-- item_copy() of a valid item to a valid one succeeds: the copy is valid and loads what the original
-- loads. It is never sensitive, so that item_unsensitive_data() of it returns the data of the
-- original, whether or not the original is sensitive.
pub item_copy_lem :
    (src dst : Item) (load_text_file : Str → Outcome Str)
    → IsValid src
    → IsValid dst
    → (copy : Item) × (item_copy src dst ≡ some copy)
      × IsValid copy
      × (item_load load_text_file copy ≡ item_load load_text_file src)
      × (item_unsensitive_data copy ≡ src.item_data)
unfolding item_copy item_is_set item_deinit item_init item_load item_unsensitive_data
item_copy_lem src dst load v w =
    let (kept, clean) = deinit-unset dst w in
    elim (Bool-cases (item_is_set src)) [
      | inl set ↦
          let (s, here) = v.with_data set in
          (
            record { type = src.type; sensitive = false; item_data = some s },
            ground (arith, set, here, clean),
            record { with_data = λ h. (s, refl); unset = λ h. absurd (ground (arith, h, set)) },
            ground (arith, here),
            sym here,
          )
      | inr unset ↦ (
        record { type = src.type; sensitive = false; item_data = none },
        ground (arith, unset, kept, clean),
        record { with_data = λ h. absurd (ground (arith, h, unset)); unset = λ h. (refl, refl) },
        ground (arith, v.unset unset),
        sym (v.unset unset).0,
      )
    ]
