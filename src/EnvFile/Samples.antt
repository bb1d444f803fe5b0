-- ===== src/EnvFile/Samples.antt =====
-- A file of settings before and after an activation.
use isales_telephony.Base.{ℕ, ◌≡◌, refl, Bool, some, leb, ◌&&◌, Text, codes, ok, arith}
use isales_telephony.EnvFile.{
  splitlines, set, partition, is_quoted, unquote, parse_line, read_lines, read_env, body,
  validate_token, is_port, is_host, is_endpoint, validate_endpoint, updated,
  write_token_and_endpoint,
}
use isales_telephony.EnvFile.Values.{IsDecimal}
use isales_telephony.EnvFile.Rewriting.{IsRewritten, write_token_and_endpoint-IsRewritten}

abbrev is_decimal : ℕ → Bool
is_decimal c = leb 48 c && leb c 57

-- a comment and a quoted value do not survive the rewriting
abbrev old_file : Text
old_file = codes "# edge\nLOG = 'debug'\nISALES_EDGE_DEVICE_TOKEN=old\n"

rewritten :
    write_token_and_endpoint is_decimal
      (codes " 0123456789abcdef")
      (codes "cloud.example:443")
      (some old_file)
    ≡ ok (
        codes
          "LOG=debug\nISALES_EDGE_DEVICE_TOKEN=0123456789abcdef\nISALES_CLOUD_GRPC_ENDPOINT=cloud.example:443\n")
unfolding write_token_and_endpoint updated validate_token validate_endpoint is_endpoint is_host
    is_port body set read_env read_lines parse_line partition unquote is_quoted splitlines
rewritten = refl

ascii-IsDecimal : IsDecimal is_decimal
ascii-IsDecimal c h = ground arith

write_token_and_endpoint-IsRewritten_example :
    IsRewritten (codes " 0123456789abcdef") (codes "cloud.example:443") (some old_file) (
      write_token_and_endpoint is_decimal
        (codes " 0123456789abcdef")
        (codes "cloud.example:443")
        (some old_file))
unfolding validate_token validate_endpoint is_endpoint is_host is_port set read_env read_lines
    parse_line partition unquote is_quoted splitlines
write_token_and_endpoint-IsRewritten_example =
    write_token_and_endpoint-IsRewritten is_decimal (codes " 0123456789abcdef")
      (codes "cloud.example:443") (some old_file) ascii-IsDecimal refl refl
      (
        (
          record {
            starts = refl;
            ends = refl;
            on_line = refl;
            no_comment = refl;
            no_equals = refl;
          },
          record { starts = refl; ends = refl; on_line = refl; unquoted = refl },
        ),
        (
          (
            record {
              starts = refl;
              ends = refl;
              on_line = refl;
              no_comment = refl;
              no_equals = refl;
            },
            record { starts = refl; ends = refl; on_line = refl; unquoted = refl },
          ),
          tt,
        ),
      )
