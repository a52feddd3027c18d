-- ===== src/Multiboot/Tests.antt =====
-- Tests and examples of the boot information of arch/x86_64/multiboot2.c.
use emergence_kernel.Multiboot.Cmdline.{cmdline_get_value-finds, cmdline_get_value-returns}
use emergence_kernel.Multiboot.Usable.{usable_range-IsInside, IsInside, padding}
use emergence_kernel.Multiboot.{
  get_info, copy_value, value_of, after_equals, match_key, skip_token, skip_dashes, skip_spaces,
  search_text, use_defaults, [], none, some, usable_range, Boot, PmmState, cmdline_get_value, parse,
  parse_entries, text_at,
}
use emergence_kernel.Prelude.{
  ◌^◌, ◌<◌, arith, refl, ◌⊎◌, ◌++◌, ◌==◌, if◌then◌else◌, ◌∷◌, ◌≡◌, ◌≤◌, List, Option, ℕ,
}

-- "quote" and "q=1 b"
abbrev quote_key : List ℕ
quote_key = 113 ∷ 117 ∷ 111 ∷ 116 ∷ 101 ∷ []

abbrev short_text : List ℕ
short_text = 113 ∷ 61 ∷ 49 ∷ 32 ∷ 98 ∷ []

-- "a=2 quote=1", with the key behind another
abbrev second_text : List ℕ
second_text = 97 ∷ 61 ∷ 50 ∷ 32 ∷ (quote_key ++ (61 ∷ 49 ∷ []))

-- A beginning of the key is taken for the key.
shorter : cmdline_get_value quote_key short_text ≡ some (some (49 ∷ []))
unfolding cmdline_get_value search_text skip_spaces skip_dashes skip_token match_key after_equals
    value_of copy_value
shorter = refl

second : cmdline_get_value quote_key second_text ≡ some (some (49 ∷ []))
unfolding cmdline_get_value search_text skip_spaces skip_dashes skip_token match_key after_equals
    value_of copy_value
second = refl

missing : cmdline_get_value quote_key (97 ∷ 32 ∷ 32 ∷ []) ≡ some none
unfolding cmdline_get_value search_text skip_spaces skip_dashes skip_token match_key after_equals
    value_of copy_value
missing = refl

cmdline_get_value-returns_example :
    (v : Option (List ℕ)) × (cmdline_get_value quote_key second_text ≡ some v)
cmdline_get_value-returns_example = cmdline_get_value-returns quote_key second_text

cmdline_get_value-finds_example : cmdline_get_value quote_key short_text ≡ some (some (49 ∷ []))
cmdline_get_value-finds_example =
    cmdline_get_value-finds 113 [] (117 ∷ 111 ∷ 116 ∷ 101 ∷ []) (49 ∷ []) (32 ∷ 98 ∷ [])
      (omega arith) (omega arith) refl (omega arith)

usable_range-IsInside_example :
    ((padding 0x1234 ≤ 0x10)
      × ((usable_range 0x1234 0x10 ≡ none)
          ⊎ ((b : ℕ) × (n : ℕ) × (usable_range 0x1234 0x10 ≡ some (b, n))
              × IsInside 0x1234 0x10 b n)))
    ⊎ ((0x10 < padding 0x1234)
        × (b : ℕ) × (n : ℕ) × (usable_range 0x1234 0x10 ≡ some (b, n))
        × (2 ^ 63 < n))
usable_range-IsInside_example = usable_range-IsInside 0x1234 0x10 (omega arith)

-- An entry of size 0 is gone through again and again.
endless : (s : PmmState) → parse_entries 3 (λ a. 0) 16 40 0 s ≡ none
unfolding parse_entries
endless s = refl

no_info : (b : Boot) → parse (λ a. 0) [] 0 b ≡ some (use_defaults [] (record b { stored_addr = 0 }))
unfolding parse
no_info b = refl

info : (b : Boot) → get_info (record b { stored_addr = 5; stored_size = 6 }) ≡ (5, 6)
unfolding get_info
info b = refl

-- "hi" in memory
text : text_at 1023 (λ a. if a == 8 then 104 else if a == 9 then 105 else 0) 8 ≡ 104 ∷ 105 ∷ []
unfolding text_at
text = refl
