-- ===== src/Upload/Paths.antt =====
-- The path of an uploaded file (`getDirPath`) and the title of a video, in manage-upload-file.js.
pub mod Laws
use streaming_service.Base.{
  Option, [], drop, if◌then◌else◌, length, none, some, take, ℕ, ◌%◌, ◌++◌, ◌+◌, ◌-◌, ◌==◌, ◌^◌, ◌∷◌,
}
use streaming_service.Base.Text.{Text, codes, ends_with, index_of, last_index_of}

-- `s.substring(0, s.length - 1)` for a text that ends in a slash
without_slash : Text → Text
without_slash s = take (length s - 1) s

-- `filePath.substring(filePath.indexOf('/') + 1)`: the text behind the first slash, or all of it.
root_omitted : Text → Text
root_omitted path = elim (index_of b'/' path) [ none ↦ path | some i ↦ drop (i + 1) path ]

strip_first : Text → Text
strip_first [] = []
strip_first (c ∷ s) = if c == b'/' then s else c ∷ s

strip_last : Text → Text
unfolding without_slash
strip_last s = if ends_with s (codes "/") then without_slash s else s

unfoldable pub get_dir_path : Text → Option Text → Text
unfolding root_omitted strip_first strip_last
get_dir_path path name =
    let root = root_omitted path in
    let file : Text = elim name [ none ↦ [] | some n ↦ n ] in
    strip_last
      (strip_first (root ++ ((if ends_with root (codes "/") then [] else codes "/") ++ file)))

-- `base.lastIndexOf('.') >>> 0 || base.length`: -1 becomes 2^32 - 1, and 0 the length.
abbrev to_uint32 : Option ℕ → ℕ
to_uint32 none = 2 ^ 32 - 1
to_uint32 (some i) = i % 2 ^ 32

title_end : Text → ℕ
title_end base = let i = to_uint32 (last_index_of b'.' base) in if i == 0 then length base else i

-- `filename.substring(filename.lastIndexOf('/') + 1)`
base_name : Text → Text
base_name name = elim (last_index_of b'/' name) [ none ↦ name | some i ↦ drop (i + 1) name ]

-- `substring` clamps its end to the length.
unfoldable pub video_title : Text → Text
unfolding title_end base_name
video_title name = let base = base_name name in take (title_end base) base
