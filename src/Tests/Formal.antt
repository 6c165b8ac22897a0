-- ===== src/Tests/Formal.antt =====
-- Examples of scripts/formal_m1_gen.py.
use riscv_vibecoded.Formal.Path.{join_one, join_path}
use riscv_vibecoded.Formal.Rewrite.{
  post_process, split_read, set_reset, reset_match, rewrite_line, match_read, to_bmc,
}
use riscv_vibecoded.Formal.Generate.{Environment, generate, checks_dir}
use riscv_vibecoded.Formal.M1.{config}
use riscv_vibecoded.Formal.Native.{EachCall, InNative, generate-InNative}
use riscv_vibecoded.Formal.ReadLine.{read_line, split_read_lem}
use riscv_vibecoded.Formal.Reset.{somewhere-post_process}
use riscv_vibecoded.Formal.Written.{outcome, expected, outcome-generate}
use riscv_vibecoded.Py.Text.{
  Text, text, text_eq, eq_text, elem, starts_with, ends_with, after_prefix, is_space, is_word,
  run_of, split, join,
}
use riscv_vibecoded.Py.Text.Match.{some_of, starts_with_word, somewhere, sub_all, replace_first}
use riscv_vibecoded.Py.Text.Lines.{is_newline}
use riscv_vibecoded.Py.Text.Strip.{Each}
use riscv_vibecoded.Prelude.{none, All, Bool, false, [], ◌∷◌, ◌++◌, some, ◌≡◌, refl}

abbrev content : Text
content =
    text "mode prove\n"
    ++ (text "read -sv add.sv @basedir@/cores/up5k_rv/wrapper.sv\n"
        ++ (text "`define RISCV_FORMAL_RESET_CYCLES 1\n"
            ++ (text "`define RISCV_FORMAL_RESET_CYCLES 15\n"
                ++ text "`define RISCV_FORMAL_UNBOUNDED\nend")))

-- One read line is split, one depth is set, and the rest is kept.
content_rewritten :
    set_reset (split_read (text "read_slang x") content)
    ≡ text "mode prove\n"
      ++ (text "read_slang x\nread_verilog -sv add.sv\n"
          ++ (text "`define RISCV_FORMAL_RESET_CYCLES 8\n"
              ++ (text "`define RISCV_FORMAL_RESET_CYCLES 15\n"
                  ++ text "`define RISCV_FORMAL_UNBOUNDED\nend")))
unfolding set_reset split_read rewrite_line match_read reset_match sub_all starts_with_word is_word
    join split after_prefix some_of run_of is_space ends_with eq_text
content_rewritten = refl

content_bmc :
    to_bmc content
    ≡ text "mode bmc\n"
      ++ (text "read -sv add.sv @basedir@/cores/up5k_rv/wrapper.sv\n"
          ++ (text "`define RISCV_FORMAL_RESET_CYCLES 1\n"
              ++ (text "`define RISCV_FORMAL_RESET_CYCLES 15\n" ++ text "end")))
unfolding to_bmc replace_first starts_with
content_bmc = refl

somewhere-post_process_example :
    somewhere reset_match (post_process config (text "/repo") (text "insn_add_ch0.sby") content)
    ≡ false
somewhere-post_process_example =
    somewhere-post_process config (text "/repo") (text "insn_add_ch0.sby") content
      (unfold elem eq_text in refl)

split_read_lem_example :
    split_read (text "read_slang x") (
      join (text "\n") (
        text "[script]" ∷ []
        ++ read_line (b'a' ∷ text "dd" ++ text ".sv") (b'@' ∷ text "/" ++ text "wrapper.sv")
          ∷ text "prep"
          ∷ []))
    ≡ join (text "\n") (
        text "[script]" ∷ []
        ++ (text "read_slang x" ++ (text "\nread_verilog -sv " ++ (b'a' ∷ text "dd" ++ text ".sv")))
          ∷ text "prep"
          ∷ [])
split_read_lem_example =
    split_read_lem (text "read_slang x") (text "dd") (text "/") b'a' b'@' (text "[script]" ∷ [])
      (text "prep" ∷ []) (unfold is_space in (refl, (refl, (refl, tt)))) lines (unread, tt)
      (kept, tt)
  where
    lines : All (Each is_newline false) (
        text "[script]" ∷ []
        ++ read_line (b'a' ∷ text "dd" ++ text ".sv") (b'@' ∷ text "/" ++ text "wrapper.sv")
          ∷ text "prep"
          ∷ [])
    lines = (
      (refl, (refl, (refl, (refl, (refl, (refl, (refl, (refl, tt)))))))),
      (
        (
          refl,
          (
            refl,
            (
              refl,
              (
                refl,
                (
                  refl,
                  (
                    refl,
                    (
                      refl,
                      (
                        refl,
                        (
                          refl,
                          (
                            refl,
                            (
                              refl,
                              (
                                refl,
                                (
                                  refl,
                                  (
                                    refl,
                                    (
                                      refl,
                                      (
                                        refl,
                                        (
                                          refl,
                                          (
                                            refl,
                                            (
                                              refl,
                                              (
                                                refl,
                                                (
                                                  refl,
                                                  (
                                                    refl,
                                                    (
                                                      refl,
                                                      (refl, (refl, (refl, (refl, (refl, tt))))),
                                                    ),
                                                  ),
                                                ),
                                              ),
                                            ),
                                          ),
                                        ),
                                      ),
                                    ),
                                  ),
                                ),
                              ),
                            ),
                          ),
                        ),
                      ),
                    ),
                  ),
                ),
              ),
            ),
          ),
        ),
        ((refl, (refl, (refl, (refl, tt)))), tt),
      ),
    )

    unread : match_read (text "[script]") ≡ none
    unread = unfold match_read after_prefix in refl

    kept : match_read (text "prep") ≡ none
    kept = unfold match_read after_prefix in refl

abbrev no_links : Text → Bool
no_links path = false

abbrev same_path : Text → Text
same_path path = path

abbrev surroundings : Environment
surroundings = record {
  abspath = same_path;
  tempdir = text "/tmp";
  is_link = no_links;
  genchecks = some ((text "add.sby", content) ∷ (text "add.sv", text "x") ∷ []);
}

generate-InNative_example :
    EachCall (InNative config surroundings) (generate config surroundings (text "/repo" ∷ []))
generate-InNative_example =
    generate-InNative config surroundings (text "/repo" ∷ [])
      (unfold starts_with in (refl, (refl, tt)))

outcome-generate_example :
    outcome (generate config surroundings (text "/repo" ∷ []))
    ≡ expected config (text "/repo") (checks_dir config surroundings) surroundings.genchecks
outcome-generate_example = outcome-generate config surroundings (text "/repo") []

checks_dir_there : checks_dir config surroundings ≡ text "/tmp/up5k-rv-formal/cores/up5k_rv/checks"
unfolding join_path join_one starts_with ends_with eq_text
checks_dir_there = refl
