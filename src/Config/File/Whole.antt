-- ===== src/Config/File/Whole.antt =====
-- internal/config/write.go, `WriteConfig`: the file is written as a whole or not at all.
use redash_wire.Common.{
  Bool, true, false, not, ◌&&◌, Option, none, some, [], if◌then◌else◌, ◌≡◌, refl, ◌∙◌, Bool-cases,
  Option-cases, inl, inr,
}
use redash_wire.Common.Text.{Bytes, equal, equal_refl}
use redash_wire.Config.{FileConfig}
use redash_wire.Config.File.{
  Stored, Disk, put, is_none, Trouble, WriteError, Yaml, link_file, fill_temp, remove_temp, store,
  marshaled, write_config,
}

-- No system call fails. A temporary file that stays behind is no failure.
abbrev pub calm : Trouble → Bool
calm t =
    not t.mkdir_fails
    && not t.create_fails
    && not t.chmod_fails
    && is_none t.written_part
    && not t.close_fails
    && not t.link_fails

-- The file is there as a whole, if nothing failed and no file was there, or nothing has changed.
abbrev pub expected : Trouble → Option Bytes → Bytes → Disk → Disk × Bool
expected t none path disk = (disk, false)
expected t (some bytes) path disk =
    if calm t && is_none (disk path)
    then (put path (some (record { contents = bytes; owner_only = true })) disk, true)
    else (disk, false)

-- What is seen of a result: the file under one path, and whether there is an error.
abbrev pub seen : Bytes → Disk × Option WriteError → Option Stored × Bool
seen q (disk, e) = (disk q, is_none e)

abbrev pub seen_of : Bytes → Disk × Bool → Option Stored × Bool
seen_of q (disk, b) = (disk q, b)

put_twice :
    (tmp q : Bytes) (file next : Option Stored) (disk : Disk)
    → equal q tmp ≡ false
    → put tmp next (put tmp file disk) q ≡ disk q
put_twice tmp q file next disk h = rw h refl

put_same : (tmp : Bytes) (file : Option Stored) (disk : Disk) → put tmp file disk tmp ≡ file
put_same tmp file disk = rw (equal_refl tmp) refl

seen-remove_temp :
    (t : Trouble) (tmp q : Bytes) (r : Disk × Option WriteError)
    → equal q tmp ≡ false
    → seen q (remove_temp t tmp r) ≡ seen q r
seen-remove_temp t tmp q (disk, e) h = elim (Bool-cases t.remove_fails) [
  | inl m ↦ rw m refl
  | inr m ↦ rw (m, h) refl
]

-- A file over a disk that has it nowhere but at the name of the temporary one.
link_file_lem :
    (t : Trouble) (tmp path q : Bytes) (file : Stored) (full disk : Disk)
    → full tmp ≡ some file
    → full path ≡ disk path
    → full q ≡ disk q
    → seen q (link_file t tmp path full)
      ≡ seen_of q (
          if not t.link_fails && is_none (disk path)
          then (put path (some file) disk, true)
          else (disk, false))
unfolding link_file
link_file_lem t tmp path q file full disk e f g = elim (Option-cases (disk path)) [
  | inr (s, d) ↦ elim (Bool-cases t.link_fails) [
    | inl l ↦ rw (link_file, f, d, l, g) refl
    | inr l ↦ rw (link_file, f, d, l, g) refl
  ]
  | inl d ↦ elim (Bool-cases t.link_fails) [
    | inl l ↦ rw (link_file, f, d, l, g) refl
    | inr l ↦ rw (link_file, f, d, l, e, g) refl
  ]
]

fill_temp_lem :
    (t : Trouble) (tmp path bytes : Bytes) (start : Option Stored) (disk : Disk) (q : Bytes)
    → equal q tmp ≡ false
    → equal path tmp ≡ false
    → seen q (fill_temp t tmp path bytes (put tmp start disk))
      ≡ seen_of q (
          if not t.chmod_fails
            && is_none t.written_part
            && not t.close_fails
            && not t.link_fails
            && is_none (disk path)
          then (put path (some (record { contents = bytes; owner_only = true })) disk, true)
          else (disk, false))
unfolding fill_temp
fill_temp_lem t tmp path bytes start disk q h k =
    let file : Stored = record { contents = bytes; owner_only = true } in
    elim (Bool-cases t.chmod_fails) [
      | inl m ↦ rw (m, h) refl
      | inr m ↦ elim (Option-cases t.written_part) [
        | inr (part, w) ↦ rw (m, w, h) refl
        | inl w ↦ elim (Bool-cases t.close_fails) [
          | inl c ↦ rw (m, w, c, h) refl
          | inr c ↦
              rw (m, w, c)
                (link_file_lem t tmp path q file (put tmp (some file) (put tmp start disk)) disk
                  (put_same tmp (some file) (put tmp start disk))
                  (put_twice tmp path start (some file) disk k)
                  (put_twice tmp q start (some file) disk h))
        ]
      ]
    ]

store_lem :
    (t : Trouble) (tmp path bytes : Bytes) (disk : Disk) (q : Bytes)
    → equal q tmp ≡ false
    → equal path tmp ≡ false
    → seen q (store t tmp path bytes disk) ≡ seen_of q (expected t (some bytes) path disk)
unfolding store
store_lem t tmp path bytes disk q h k =
    let start : Option Stored = some (record { contents = []; owner_only = true }) in
    elim (Bool-cases t.mkdir_fails) [
      | inl m ↦ rw m refl
      | inr m ↦ elim (Bool-cases t.create_fails) [
        | inl c ↦ rw (m, c) refl
        | inr c ↦
            rw (m, c)
              (seen-remove_temp t tmp q (fill_temp t tmp path bytes (put tmp start disk)) h
                ∙ fill_temp_lem t tmp path bytes start disk q h k)
      ]
    ]

-- The temporary name is not the path. Whatever fails and whatever the disk holds, the path then has
-- the whole file, readable by its owner only, and no error is returned, if nothing failed and no file
-- was there; else an error is returned and no file has changed. No file but the temporary one is
-- touched otherwise.
pub write_config-expected :
    (y : Yaml) (t : Trouble) (tmp path : Bytes) (fc : FileConfig) (disk : Disk) (q : Bytes)
    → equal q tmp ≡ false
    → equal path tmp ≡ false
    → seen q (write_config y t tmp path fc disk) ≡ seen_of q (expected t (marshaled y fc) path disk)
unfolding write_config
write_config-expected y t tmp path fc disk q h k = elim (Option-cases (marshaled y fc)) [
  | inl n ↦ rw (write_config, n) refl
  | inr (bytes, e) ↦ rw (write_config, e) (store_lem t tmp path bytes disk q h k)
]
