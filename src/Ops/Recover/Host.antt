-- ===== src/Ops/Recover/Host.antt =====
-- What scripts/vps-crawl-auto-recover.py uses of Python on the values of a config and of its state file.
use healtharchive_backend.Base.{
  ℕ, String, Bool, true, false, Option, none, some, List, [], ◌∷◌, ◌==◌, string_eq, if◌then◌else◌,
}
use healtharchive_backend.Base.Int.{ℤ, pos, int_eq}
use healtharchive_backend.Json.{Json, Items, bool, int, float, arr, nil, cons}
use healtharchive_backend.Contract.{Python, truthy}

-- Beside `Python`: `strip` and `lower`; the year of the first `-YYYY0101` in a text, by the regular
-- expression of the script; the last part of a path; whether a `float` equals a number; `list` of a value
-- that is no list; `shlex.split`; and the times of the state file, to and from ISO texts.
pub record Host : Type 0 where
  pub py : Python
  pub fold : String → String
  pub suffix_year : String → Option ℕ
  pub path_name : String → String
  pub float_is : String → ℤ → Bool
  pub list_of : Json → Option Items
  pub split : String → List String
  pub iso : ℕ → String
  pub from_iso : Json → Option ℕ

-- `str(v or "").strip().lower()`
unfoldable pub fold_value : Host → Json → String
unfolding truthy
fold_value h v = h.fold (if truthy h.py v then h.py.to_text v else "")

-- `int(v or 0)`, 0 where it raises
unfoldable pub int_or_zero : Host → Json → ℤ
int_or_zero h v =
    if truthy h.py v then elim (h.py.to_int v) [ none ↦ pos 0 | some n ↦ n ] else pos 0

-- `v == n`
unfoldable pub is_number : Host → ℤ → Json → Bool
is_number h n (bool false) = n == pos 0
is_number h n (bool true) = n == pos 1
is_number h n (int m) = m == n
is_number h n (float text) = h.float_is text n
is_number h n _ = false

-- `list(v or [])`; `none` is an exception.
unfoldable pub list_or_empty : Host → Json → Option Items
list_or_empty h (arr items) = some items
list_or_empty h v = if truthy h.py v then h.list_of v else some nil

unfoldable pub append_item : Items → Json → Items
append_item nil x = cons x nil
append_item (cons y rest) x = cons y (append_item rest x)

unfoldable pub items_list : Items → List Json
items_list nil = []
items_list (cons x rest) = x ∷ items_list rest
