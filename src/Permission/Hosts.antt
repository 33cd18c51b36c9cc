-- ===== src/Permission/Hosts.antt =====
-- zhongshu-core/src/equipment/permission.rs: `host_allowed`.
use zhongshu.Prelude.{◌+◌, Bool, not, ◌&&◌, ◌||◌, List, [], ◌∷◌, map, any, leb, if◌then◌else◌}
use zhongshu.Prelude.Codes.{Codes, same, trim, is_nothing, reverse, reverse_onto, drop_char}

unfoldable pub to_ascii_lowercase : Codes → Codes
to_ascii_lowercase s = map (λ c. if leb 65 c && leb c 90 then c + 32 else c) s

-- `trim_end_matches('.')`.
unfoldable pub trim_end_dots : Codes → Codes
unfolding drop_char reverse_onto
trim_end_dots s = reverse (drop_char b'.' (reverse s))

unfoldable pub ends_with : Codes → Codes → Bool
unfolding same
ends_with [] t = is_nothing t
ends_with (c ∷ s) t = same (c ∷ s) t || ends_with s t

-- A host, and an entry of the list, both trimmed and in lower case.
unfoldable pub covers : Codes → Codes → Bool
unfolding is_nothing same ends_with
covers host allowed =
    not (is_nothing allowed) && (same host allowed || ends_with host (b'.' ∷ allowed))

unfoldable pub host_allowed : Codes → List Codes → Bool
unfolding covers trim to_ascii_lowercase trim_end_dots any
host_allowed host allowed_hosts =
    any
      (λ allowed.
        covers (to_ascii_lowercase (trim_end_dots host))
          (to_ascii_lowercase (trim_end_dots (trim allowed))))
      allowed_hosts
