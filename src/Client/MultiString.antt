-- ===== src/Client/MultiString.antt =====
-- HidHideCLI/src/Utils.cpp: multi-strings as the clients build and read them.
pub mod RoundTrip
pub mod Empty
use hid_hide.Prelude.{
  is_empty, ℕ, zero, suc, ◌+◌, ◌-◌, Bool, true, false, List, [], ◌∷◌, ◌++◌, length, take, drop,
  ◌==◌, WideString, if◌then◌else◌,
}

-- A std::wstring as a C string: up to its first NUL.
unfoldable pub c_str : WideString → WideString
c_str [] = []
c_str (x ∷ s) = elim (x == 0) [ true ↦ [] | false ↦ x ∷ c_str s ]

unfoldable pub zeros : ℕ → List ℕ
zeros zero = []
zeros (suc n) = 0 ∷ zeros n

-- wcsncpy_s into `append_size` zeroed characters: the C string, and NULs up to the size.
unfoldable pub wcsncpy : ℕ → WideString → List ℕ
unfolding c_str zeros
wcsncpy append_size s = c_str s ++ zeros (append_size - length (c_str s))

-- StringListToMultiString: the vector grows by each text and its terminator.
unfoldable pub append_strings : List ℕ → List WideString → List ℕ
unfolding wcsncpy
append_strings result [] = result
append_strings result (s ∷ strings) = append_strings (result ++ wcsncpy (length s + 1) s) strings

unfoldable pub string_list_to_multi_string : List WideString → List ℕ
unfolding append_strings
string_list_to_multi_string strings = append_strings [] strings ++ (0 ∷ [])

-- The loop of MultiStringToStringList: `todo` is the vector from `index` on, and a text is what
-- stands between `start` and a NUL.
unfoldable pub split_loop : List ℕ → List ℕ → ℕ → ℕ → List WideString → List WideString
split_loop multi_string [] index start result = result
split_loop multi_string (x ∷ todo) index start result =
    split_loop multi_string todo (index + 1) (if x == 0 then index + 1 else start) (
      if x == 0
      then (if is_empty (take (index - start) (drop start multi_string))
          then result
          else result ++ (take (index - start) (drop start multi_string) ∷ []))
      else result)

unfoldable pub multi_string_to_string_list : List ℕ → List WideString
unfolding split_loop
multi_string_to_string_list multi_string = split_loop multi_string multi_string 0 0 []
