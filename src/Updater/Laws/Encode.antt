-- ===== src/Updater/Laws/Encode.antt =====
-- The manifest that software/userland/manifest_to_rom.py packs, read back by
-- software/userland/src/updater/main.c.
use nileswan.Base.{ℕ, suc, ◌+◌, ◌/◌, ◌%◌, ◌^◌, ◌<◌, ◌≡◌, ap, ◌∙◌}
use nileswan.Base.{List, [], ◌∷◌, ◌++◌, arith, length, append_assoc, fun_ext, ◌⊎◌}
use nileswan.Updater.{Hardware, Updater, Outcome, done, ◌>>=◌}
use nileswan.Updater.Command.{FlashCommand, Command, flash, mcu_flash, start_manifest}
use nileswan.Updater.Command.{
  finish_manifest, check_board_revision_range, next_command, command, flash_command,
}
use nileswan.Updater.Run.{run_command, run_next, run_commands, count_part}

abbrev pub bytes_of_word : ℕ → List ℕ
bytes_of_word w = w % 256 ∷ w / 256 ∷ []

abbrev bytes_of_long : ℕ → List ℕ
bytes_of_long l = bytes_of_word (l % 65536) ++ bytes_of_word (l / 65536)

-- `struct.pack("<BHHIHH", …)`, and the shorter ones
abbrev flash_bytes : FlashCommand → List ℕ
flash_bytes c =
    c.cmd ∷ []
    ++ bytes_of_word c.load_segment
    ++ bytes_of_word c.unpacked_length
    ++ bytes_of_long c.flash_address
    ++ bytes_of_word c.expected_crc
    ++ bytes_of_word c.board_revision

abbrev pub encode : Command → List ℕ
encode (flash c) = flash_bytes c
encode (mcu_flash c) = flash_bytes c
encode (start_manifest a) = 6 ∷ bytes_of_long a
encode (finish_manifest a) = 7 ∷ bytes_of_long a
encode (check_board_revision_range lo hi) = 8 ∷ bytes_of_word lo ++ bytes_of_word hi

abbrev pub FieldsFit : FlashCommand → Type 0
FieldsFit c =
    (c.load_segment < 2 ^ 16)
    × (c.unpacked_length < 2 ^ 16)
    × (c.flash_address < 2 ^ 32)
    × (c.expected_crc < 2 ^ 16)
    × (c.board_revision < 2 ^ 16)

-- The fields fit their widths, and the opcode is one of the command's two.
abbrev pub IsEncodable : Command → Type 0
IsEncodable (flash c) = FieldsFit c × ((c.cmd ≡ 2) ⊎ (c.cmd ≡ 3))
IsEncodable (mcu_flash c) = FieldsFit c × ((c.cmd ≡ 4) ⊎ (c.cmd ≡ 5))
IsEncodable (start_manifest a) = a < 2 ^ 32
IsEncodable (finish_manifest a) = a < 2 ^ 32
IsEncodable (check_board_revision_range lo hi) = (lo < 2 ^ 16) × (hi < 2 ^ 16)

flash_command_lem :
    (c : FlashCommand) (t : List ℕ) → FieldsFit c → flash_command (flash_bytes c ++ t) ≡ c
flash_command_lem c t h = ground arith

next_command-encode :
    (c : Command) (t : List ℕ) → IsEncodable c → next_command (encode c ++ t) ≡ command c t
unfolding next_command
next_command-encode (flash c) t (fits, which) =
    let same = ap (λ d. command (flash d) t) (flash_command_lem c t fits) in ground arith
next_command-encode (mcu_flash c) t (fits, which) =
    let same = ap (λ d. command (mcu_flash d) t) (flash_command_lem c t fits) in ground arith
next_command-encode (start_manifest a) t fits = ground arith
next_command-encode (finish_manifest a) t fits = ground arith
next_command-encode (check_board_revision_range lo hi) t fits = ground arith

abbrev pub encode_all : List Command → List ℕ
encode_all [] = 0 ∷ []
encode_all (c ∷ cs) = encode c ++ encode_all cs

abbrev pub AllEncodable : List Command → Type 0
AllEncodable [] = Unit
AllEncodable (c ∷ cs) = IsEncodable c × AllEncodable cs

module _ (H : Hardware) where
  -- The commands one after the other, each with its part counted
  abbrev pub run_all : List Command → Updater H → Outcome (Updater H)
  run_all [] u = done u
  run_all (c ∷ cs) u = run_command H c (count_part H u) >>= run_all cs

  -- The runner, on the packed form of any list of commands whose fields fit, runs those commands in
  -- their order and nothing else, whatever follows the packed form.
  pub run_commands-encode_all :
      (cs : List Command) (spare : ℕ) (t : List ℕ) (u : Updater H)
      → AllEncodable cs
      → run_commands H (length cs + 1 + spare) (encode_all cs ++ t) u ≡ run_all cs u
  unfolding run_commands run_next next_command
  run_commands-encode_all [] spare t u h =
      let fuel : 1 + spare ≡ suc spare = omega arith in ap (λ n. run_commands H n (0 ∷ t) u) fuel
  run_commands-encode_all (c ∷ cs) spare t u h =
      let rest = encode_all cs ++ t in
      let fuel : suc (length cs) + 1 + spare ≡ suc (length cs + 1 + spare) = omega arith in
      let later : (v : Updater H) → run_commands H (length cs + 1 + spare) rest v ≡ run_all cs v =
        λ v. run_commands-encode_all cs spare t v h.1 in
      ap (λ n. run_commands H n ((encode c ++ encode_all cs) ++ t) u) fuel
      ∙ ap (λ p. run_commands H (suc (length cs + 1 + spare)) p u)
          (append_assoc (encode c) (encode_all cs) t)
      ∙ ap (λ next. run_next H (run_commands H (length cs + 1 + spare)) next u)
          (next_command-encode c rest h.0)
      ∙ ap (λ k. run_command H c (count_part H u) >>= k) (fun_ext later)
