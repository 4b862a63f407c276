-- ===== src/Tests/Config.antt =====
-- The reader of ini files and the lists of network addresses at concrete inputs.
use sane_airscan.Base.{
  ℕ, ◌≡◌, ◌+◌, ◌*◌, refl, Bool, true, false, Option, none, some, [], ◌∷◌, length, arith, replicate,
}
use sane_airscan.Uuid.{Text}
use sane_airscan.Inifile.File.{newline, quote, backslash, Inifile}
use sane_airscan.Inifile.Scan.{inifile_gets}
use sane_airscan.Inifile.Ends.{gets_ends, value_hangs}
use sane_airscan.Inifile.Tokens.{gets_tokens}
use sane_airscan.Inifile.Offsets.{IsTokenized}
use sane_airscan.Inifile.Quoted.{IsQuoted, gets-IsQuoted}
use sane_airscan.Inifile.Writing.{quoted_rest}
use sane_airscan.Netif.{NetifAddr, netif_addr_list_sort, netif_diff_compute}
use sane_airscan.Netif.Sort.{Sorts, count, sort_Sorts}
use sane_airscan.Netif.Diff.{common, without, diff_lem}

-- A file at its first line, with this text.
abbrev file : Text → Inifile
file input = record {
  line = 1;
  input = input;
  tk_open = false;
  tk_buffer = [];
  tk_offsets = [];
  buffer = [];
  section = [];
  variable = [];
  value = [];
}

abbrev spaced : Text
spaced = b'a' ∷ b' ' ∷ b'b' ∷ newline ∷ []

gets_ends_example :
    (c : Option ℕ) × (syntax : Bool) × (f' : Inifile) × (inifile_gets
        (2 * length spaced + 1)
        (file spaced)
        none
        true
      ≡ some (c, syntax, f'))
unfolding sane_airscan.Inifile.Turns.lacks
gets_ends_example = gets_ends (file spaced) none true refl

value_hangs_example : inifile_gets 1000 (file (backslash ∷ b'x' ∷ [])) none true ≡ none
unfolding sane_airscan.Inifile.Turns.lacks
value_hangs_example = value_hangs 1000 (file (backslash ∷ b'x' ∷ [])) (b'x' ∷ []) refl refl

abbrev in_quotes : Inifile
in_quotes = file (quote ∷ quoted_rest (b'x' ∷ quote ∷ []) [])

gets-IsQuoted_example :
    (f' : Inifile) × (inifile_gets 7 in_quotes none false ≡ some (some newline, false, f'))
    × IsQuoted (b'x' ∷ quote ∷ []) [] f'
unfolding sane_airscan.Inifile.Turns.lacks
gets-IsQuoted_example = gets-IsQuoted in_quotes none false (b'x' ∷ quote ∷ []) [] refl refl refl

gets_tokens_example :
    (c : Option ℕ) × (syntax : Bool) × (f' : Inifile) × (inifile_gets
        (2 * length spaced + 1)
        (file spaced)
        none
        false
      ≡ some (c, syntax, f'))
    × IsTokenized f'
gets_tokens_example = gets_tokens (file spaced) none false refl

abbrev address : ℕ → Bool → Text → NetifAddr
address ifindex ipv6 straddr = record {
  ifindex = ifindex;
  ipv6 = ipv6;
  straddr = straddr;
  ip = replicate 128 false;
}

abbrev lan : NetifAddr
lan = address 2 false (b'1' ∷ b'0' ∷ [])

abbrev lan6 : NetifAddr
lan6 = address 2 true (b'f' ∷ [])

abbrev wifi : NetifAddr
wifi = address 3 false (b'1' ∷ b'1' ∷ [])

sort_Sorts_example :
    Sorts (netif_addr_list_sort 3 (wifi ∷ lan ∷ lan6 ∷ [])) (λ p. count p (wifi ∷ lan ∷ lan6 ∷ []))
sort_Sorts_example = sort_Sorts 3 (wifi ∷ lan ∷ lan6 ∷ []) (omega arith)

diff_lem_example :
    netif_diff_compute (lan6 ∷ lan ∷ []) (lan ∷ wifi ∷ [])
    ≡ some (record {
      added = without (lan ∷ wifi ∷ []) (lan6 ∷ lan ∷ []);
      removed = without (lan6 ∷ lan ∷ []) (lan ∷ wifi ∷ []);
      preserved = common (lan6 ∷ lan ∷ []) (lan ∷ wifi ∷ []);
    })
unfolding sane_airscan.Netif.netif_addr_cmp sane_airscan.Ip.ip_is_linklocal
diff_lem_example =
    diff_lem (lan6 ∷ lan ∷ []) (lan ∷ wifi ∷ []) ((refl, tt), (tt, tt)) ((refl, tt), (tt, tt))
