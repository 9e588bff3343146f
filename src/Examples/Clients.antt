-- ===== src/Examples/Clients.antt =====
-- Two devices for a client to talk to: one that answers every call, and one that refuses every
-- call.
use hid_hide.Prelude.{
  ℕ, ◌+◌, ◌*◌, ◌≡◌, refl, true, false, not, [], ◌∷◌, length, ◌==◌, if◌then◌else◌, Ordering, codes,
}
use hid_hide.Driver.MultiString.Layout.{multi_string}
use hid_hide.Driver.Requests.{
  ControlCode, get_whitelist_code, set_whitelist_code, get_blacklist_code, set_blacklist_code,
  get_active_code, set_active_code, get_wlinverse_code, set_wlinverse_code,
}
use hid_hide.Client.MultiString.{multi_string_to_string_list}
use hid_hide.Client.Sets.{compare_text}
use hid_hide.Client.DriverAccess.{Call, Answer, Device, thrown}
use hid_hide.Client.FilterDriverProxy.{Proxy, unchanged, proxy_set_active}
use hid_hide.Client.FilterDriverProxy.Faithful.{Settings}
use hid_hide.Client.FilterDriverProxy.WriteThrough.{proxy_set_active_refused}

abbrev accepted : Answer
accepted = record { is_ok = true; needed = 0; flag = 0; characters = [] }

abbrev on_call : ControlCode → Call → Settings → Answer × Settings
on_call get_active_code c w =
    (record { is_ok = true; needed = 1; flag = if w.active then 1 else 0; characters = [] }, w)
on_call get_wlinverse_code c w =
    (record { is_ok = true; needed = 1; flag = if w.inverse then 1 else 0; characters = [] }, w)
on_call get_blacklist_code c w = (
  record {
    is_ok = true;
    needed = length (multi_string w.blacklist) * 2;
    flag = 0;
    characters = multi_string w.blacklist;
  },
  w,
)
on_call get_whitelist_code c w = (
  record {
    is_ok = true;
    needed = length (multi_string w.whitelist) * 2;
    flag = 0;
    characters = multi_string w.whitelist;
  },
  w,
)
on_call set_active_code c w = (accepted, record w { active = not (c.flag == 0) })
on_call set_wlinverse_code c w = (accepted, record w { inverse = not (c.flag == 0) })
on_call set_blacklist_code c w =
    (accepted, record w { blacklist = multi_string_to_string_list c.characters })
on_call set_whitelist_code c w =
    (accepted, record w { whitelist = multi_string_to_string_list c.characters })
on_call _ c w = (accepted, w)

-- A driver that holds its settings and answers every call.
abbrev pub willing : Device
willing = record { World = Settings; control = λ c w. on_call c.code c w }

abbrev pub bare : Settings
bare = record { active = false; blacklist = []; whitelist = codes "a" ∷ []; inverse = false }

abbrev pub wanted : Proxy
wanted = record {
  write_through = false;
  active = true;
  blacklist = codes "b" ∷ codes "c" ∷ [];
  whitelist = codes "a" ∷ [];
  inverse = false;
}

pub b_below_c : compare_text (codes "b") (codes "c") ≡ Ordering.lt
unfolding compare_text
b_below_c = refl

abbrev pub through : Proxy
through = record {
  write_through = true;
  active = false;
  blacklist = [];
  whitelist = codes "a" ∷ [];
  inverse = false;
}

-- A driver that refuses every call.
abbrev refusing : Device
refusing = record {
  World = ℕ;
  control = λ c w. (record { is_ok = false; needed = 0; flag = 0; characters = [] }, w + 1);
}

proxy_set_active_refused_example :
    ((proxy_set_active refusing true through 0).outcome ≡ thrown)
    × ((w : ℕ)
        → proxy_set_active refusing true (proxy_set_active refusing true through 0).proxy w
          ≡ unchanged refusing (proxy_set_active refusing true through 0).proxy w)
proxy_set_active_refused_example = proxy_set_active_refused refusing true through 0 refl refl refl
