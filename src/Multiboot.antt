-- ===== src/Multiboot.antt =====
-- arch/x86_64/multiboot2.c: the boot information, read from a byte memory. The kernel's command line is
-- the list of its characters, without the NUL, and a pointer into it is what is left of it.
pub mod Cmdline
pub mod Usable
mod Tests
use emergence_kernel.Pmm.{PmmState}
use emergence_kernel.Pmm.Region.{add_region}
use emergence_kernel.Prelude.{
  ℕ, zero, suc, ◌+◌, ◌-◌, ◌*◌, ◌/◌, Bool, true, false, not, ◌&&◌, ◌||◌, Option, none, some, List,
  [], ◌∷◌, ltb, leb, ◌==◌, if◌then◌else◌, page_size, page_floor, page_ceil, u64_mod, sub_u64, take,
  length,
}

-- ' ', '"', '-' and '='
abbrev pub space : ℕ
space = 32

abbrev pub quote : ℕ
quote = 34

abbrev pub dash : ℕ
dash = 45

abbrev pub equals : ℕ
equals = 61

-- `while (*p == ' ') p++`
unfoldable pub skip_spaces : List ℕ → List ℕ
skip_spaces [] = []
skip_spaces (c ∷ p) = let rest = skip_spaces p in if c == space then rest else c ∷ p

-- `while (*p != '\0' && *p != ' ') p++`
unfoldable pub skip_token : List ℕ → List ℕ
skip_token [] = []
skip_token (c ∷ p) = let rest = skip_token p in if c == space then c ∷ p else rest

-- Behind "--"
unfoldable pub skip_dashes : List ℕ → List ℕ
skip_dashes [] = []
skip_dashes (a ∷ []) = a ∷ []
skip_dashes (a ∷ b ∷ p) = if (a == dash) && (b == dash) then p else a ∷ b ∷ p

-- The comparison with the key: what is left where it stops, or none where a character differs. It
-- stops at the end of the key, of the text or of the token's name.
unfoldable pub match_key : List ℕ → List ℕ → Option (List ℕ)
match_key [] p = some p
match_key (k ∷ ks) [] = some []
match_key (k ∷ ks) (c ∷ p) =
    let rest = match_key ks p in
    if (c == equals) || (c == space) then some (c ∷ p) else if c == k then rest else none

-- The characters of a value up to a stop character, at most n
unfoldable pub copy_value : ℕ → ℕ → List ℕ → List ℕ
copy_value zero stop p = []
copy_value (suc n) stop [] = []
copy_value (suc n) stop (c ∷ p) =
    let rest = copy_value n stop p in if c == stop then [] else c ∷ rest

-- The value behind '=', quoted or not, in a buffer of 256 bytes
unfoldable pub value_of : List ℕ → List ℕ
value_of [] = []
value_of (c ∷ p) = if c == quote then copy_value 255 quote p else copy_value 255 space (c ∷ p)

-- What follows the key where it matches and '=' stands behind it
unfoldable pub after_equals : Option (List ℕ) → Option (List ℕ)
after_equals none = none
after_equals (some []) = none
after_equals (some (c ∷ p)) = if c == equals then some p else none

-- `while (*p != '\0')`, with fuel: none when it runs out, else the value or none for NULL
unfoldable pub search_text : ℕ → List ℕ → List ℕ → Option (Option (List ℕ))
search_text zero key p = none
search_text (suc fuel) key [] = some none
search_text (suc fuel) key (c ∷ p) =
    let here = skip_dashes (skip_spaces (c ∷ p)) in
    let rest = search_text fuel key (skip_token here) in
    elim (after_equals (match_key key here)) [
      | none ↦ rest
      | some value ↦ some (some (value_of value))
    ]

-- `cmdline_get_value` of the kernel's command line; a round takes a character at least.
unfoldable pub cmdline_get_value : List ℕ → List ℕ → Option (Option (List ℕ))
cmdline_get_value key text = search_text (suc (length text)) key text

-- A `uint32_t` and a `uint64_t` in memory
unfoldable pub read_u32 : (ℕ → ℕ) → ℕ → ℕ
read_u32 m a = m a + 256 * m (a + 1) + 65536 * m (a + 2) + 16777216 * m (a + 3)

unfoldable pub read_u64 : (ℕ → ℕ) → ℕ → ℕ
read_u64 m a = read_u32 m a + 4294967296 * read_u32 m (a + 4)

-- The pages of an available range: base and length, where there is one
unfoldable pub usable_range : ℕ → ℕ → Option (ℕ × ℕ)
usable_range base length =
    let aligned_base = page_ceil base in
    let aligned_length = page_floor (sub_u64 length (sub_u64 aligned_base base)) in
    if leb page_size aligned_length then some (aligned_base, aligned_length) else none

unfoldable pub add_usable : Option (ℕ × ℕ) → PmmState → PmmState
add_usable none s = s
add_usable (some (base, length)) s = add_region s base length

-- One entry of the memory map
unfoldable pub add_entry : (ℕ → ℕ) → ℕ → PmmState → PmmState
add_entry m entry s =
    if read_u32 m (entry + 16) == 1
    then add_usable (usable_range (read_u64 m entry) (read_u64 m (entry + 8))) s
    else s

-- The loop of `parse_memory_map`, with fuel: none when it runs out
unfoldable pub parse_entries : ℕ → (ℕ → ℕ) → ℕ → ℕ → ℕ → PmmState → Option PmmState
parse_entries zero m entry end entry_size s = none
parse_entries (suc fuel) m entry end entry_size s =
    let rest = parse_entries fuel m (entry + entry_size) end entry_size (add_entry m entry s) in
    if ltb entry end then rest else some s

-- `parse_memory_map`, with the size of the tag as fuel: an entry has a byte at least.
unfoldable pub parse_memory_map : (ℕ → ℕ) → ℕ → PmmState → Option PmmState
parse_memory_map m tag s =
    parse_entries (read_u32 m (tag + 4) + 1) m (tag + 16) (tag + read_u32 m (tag + 4))
      (read_u32 m (tag + 8)) s

-- `parse_cmdline`: at most n characters up to the NUL
unfoldable pub text_at : ℕ → (ℕ → ℕ) → ℕ → List ℕ
text_at zero m a = []
text_at (suc n) m a = let rest = text_at n m (a + 1) in if m a == 0 then [] else m a ∷ rest

-- `kernel_cmdline`, the memory added so far, `found_memory`, and `stored_mbi_addr` and `stored_mbi_size`
pub record Boot : Type 0 where
  pub cmdline : List ℕ
  pub pmm : PmmState
  pub found_memory : Bool
  pub stored_addr : ℕ
  pub stored_size : ℕ

unfoldable pub add_map : Boot → Option PmmState → Option Boot
add_map b none = none
add_map b (some s) = some (record b { pmm = s; found_memory = true })

-- The switch over the type of a tag
unfoldable pub parse_tag : (ℕ → ℕ) → ℕ → Boot → Option Boot
parse_tag m tag b =
    if read_u32 m tag == 1
    then some (record b { cmdline = text_at 1023 m (tag + 8) })
    else if read_u32 m tag == 6
    then add_map b (parse_memory_map m tag b.pmm)
    else some b

-- The size of a tag with its padding
abbrev pub padded : ℕ → ℕ
padded size = (size + 7) / 8 * 8

-- The loop over the tags, with fuel: none when it, or that of a memory map, runs out
unfoldable pub parse_tags : ℕ → (ℕ → ℕ) → ℕ → ℕ → Option Boot → Option Boot
parse_tags zero m tag end b = none
parse_tags (suc fuel) m tag end none = none
parse_tags (suc fuel) m tag end (some b) =
    let size = read_u32 m (tag + 4) in
    let parsed = parse_tag m tag b in
    let next = tag + padded size in
    let rest = parse_tags fuel m next end parsed in
    if read_u32 m tag == 0
    then some b
    else if ltb size 8 || ltb 4096 size
    then some b
    else if leb end next
    then parsed
    else rest

-- The embedded command line, and the memory from 4 MB to 128 MB, where nothing else was found
unfoldable pub use_defaults : List ℕ → Boot → Boot
use_defaults embedded b =
    let b' = if leb (length b.cmdline) 0 then record b { cmdline = take 1023 embedded } else b in
    if b'.found_memory then b' else record b' { pmm = add_region b'.pmm 0x400000 0x7C00000 }

unfoldable pub finish : List ℕ → Option Boot → Option Boot
finish embedded none = none
finish embedded (some b) = some (use_defaults embedded b)

-- `multiboot2_parse`, with a tag of 8 bytes at least in each round
unfoldable pub parse : (ℕ → ℕ) → List ℕ → ℕ → Boot → Option Boot
parse m embedded mbi b =
    let total_size = read_u32 m mbi in
    let stored = record b { stored_addr = mbi; stored_size = total_size } in
    let tags = parse_tags (total_size + 1) m (mbi + 8) (mbi + total_size) (some stored) in
    if mbi == 0
    then some (use_defaults embedded (record b { stored_addr = mbi }))
    else if ltb total_size 8
    then some (use_defaults embedded stored)
    else finish embedded tags

-- `multiboot_get_info`
unfoldable pub get_info : Boot → ℕ × ℕ
get_info b = (b.stored_addr, b.stored_size)
