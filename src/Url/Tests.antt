-- ===== src/Url/Tests.antt =====
-- Runs of the URL functions, by evaluation.
use datareel.Prelude.{ℕ, ◌≡◌, refl, true, false, List, [], ◌∷◌, ◌++◌, arith}
use datareel.Url.{
  GxsUrlInfo, clear, http, to_string, host_and_port, path_and_query, encode, decode, hexval,
  default_port,
}
use datareel.Url.Text.{
  is_space, lower_char, trim_left_view, trim_right_view, starts_with, cut, cut_last, cut_scheme,
  decimal,
}
use datareel.Url.Parse.{
  parse, parse_scheme, parse_rest, parse_query, parse_path, parse_authority, parse_host, plain_host,
  literal_host, finish_host, parse_port, port_loop, all_scheme_chars, resolve, directory,
}
use datareel.Url.Encoding.{decode-encode}
use datareel.Url.Host.{IsHostChar, IsPort}
use datareel.Url.RoundTrip.{IsUrl, normal, parse-to_string}

-- `http://a b:p@[::1]:81/x?q`, as it is taken apart.
abbrev info : GxsUrlInfo
info = record clear {
  scheme = http;
  user = b'a' ∷ b' ' ∷ [];
  passwd = b'p' ∷ [];
  host = b':' ∷ b':' ∷ b'1' ∷ [];
  port = 81;
  port_given = true;
  path = b'/' ∷ b'x' ∷ [];
  query = b'q' ∷ [];
}

program : Unit {0}
unfolding to_string host_and_port path_and_query encode decode hexval default_port is_space
    lower_char trim_left_view trim_right_view starts_with cut cut_last cut_scheme decimal parse
    parse_scheme parse_rest parse_query parse_path parse_authority parse_host plain_host
    literal_host finish_host parse_port port_loop all_scheme_chars resolve directory
program = tt

abbrev separator : List ℕ
separator = b':' ∷ b'/' ∷ b'/' ∷ []

to_string-info :
    to_string info
    ≡ http
      ++ separator
      ++ (b'a' ∷ b'%' ∷ b'2' ∷ b'0' ∷ b':' ∷ b'p' ∷ b'@' ∷ [])
      ++ (b'[' ∷ b':' ∷ b':' ∷ b'1' ∷ b']' ∷ b':' ∷ b'8' ∷ b'1' ∷ b'/' ∷ b'x' ∷ b'?' ∷ b'q' ∷ [])
unfolding program
to_string-info = refl

-- A password without a user is read, and is not printed.
passwd-lost :
    to_string (parse (http ++ separator ++ (b':' ∷ b'p' ∷ b'@' ∷ b'h' ∷ b'/' ∷ []))).1
    ≡ http ++ separator ++ (b'h' ∷ b'/' ∷ [])
unfolding program
passwd-lost = refl

-- The location `/l?n=http://x` of a redirect is taken as absolute, since "://" stands in it.
abbrev location : List ℕ
location = b'/' ∷ b'l' ∷ b'?' ∷ b'n' ∷ b'=' ∷ (http ++ separator ++ (b'x' ∷ []))

resolve-location : resolve info location ≡ location
unfolding program
resolve-location = refl

-- It is no URL.
parse-location : (parse (resolve info location)).0 ≡ false
unfolding program
parse-location = refl

resolve-relative :
    resolve (record info { port_given = false }) (b'y' ∷ [])
    ≡ http ++ separator ++ (b'[' ∷ b':' ∷ b':' ∷ b'1' ∷ b']' ∷ b'/' ∷ b'y' ∷ [])
unfolding program
resolve-relative = refl

colon-IsHostChar : IsHostChar b':'
unfolding lower_char is_space
colon-IsHostChar = record {
  small = refl;
  no_space = refl;
  no_slash = omega arith;
  no_question = omega arith;
  no_hash = omega arith;
  no_at = omega arith;
  no_open = omega arith;
  no_close = omega arith;
}

one-IsHostChar : IsHostChar b'1'
unfolding lower_char is_space
one-IsHostChar = record {
  small = refl;
  no_space = refl;
  no_slash = omega arith;
  no_question = omega arith;
  no_hash = omega arith;
  no_at = omega arith;
  no_open = omega arith;
  no_close = omega arith;
}

info-IsPort : IsPort info
unfolding default_port lower_char
info-IsPort = record { positive = λ e. omega arith; bounded = λ e. omega arith; default = λ e. cc }

info-IsUrl : IsUrl info
unfolding is_space
info-IsUrl = record {
  place = record {
    first = b':';
    others = b':' ∷ b'1' ∷ [];
    not_empty = refl;
    host_chars = (colon-IsHostChar, (colon-IsHostChar, (one-IsHostChar, tt)));
    port_known = info-IsPort;
    user_bytes = (omega arith, (omega arith, tt));
    passwd_bytes = (omega arith, tt);
    passwd_with_user = λ e. cc;
  };
  scheme_not_empty = refl;
  scheme_chars = (refl, (refl, (refl, (refl, tt))));
  path_rest = b'x' ∷ [];
  path_start = refl;
  path_chars = ((refl, omega arith, omega arith), ((refl, omega arith, omega arith), tt));
  query_chars = ((refl, omega arith), tt);
}

parse-to_string_example : parse (to_string info) ≡ (true, normal info)
parse-to_string_example = parse-to_string info info-IsUrl

decode-encode_example : decode false (encode (b'a' ∷ b' ' ∷ 0xff ∷ [])) ≡ b'a' ∷ b' ' ∷ 0xff ∷ []
decode-encode_example =
    decode-encode (b'a' ∷ b' ' ∷ 0xff ∷ []) (omega arith, (omega arith, (omega arith, tt)))
