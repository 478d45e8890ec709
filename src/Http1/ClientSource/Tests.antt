-- ===== src/Http1/ClientSource/Tests.antt =====
-- The first transport of a source.
use shitty.Prelude.{◌≡◌, refl, ok}
use shitty.Http1.ClientSource.{new_source, Got, in_use, get_transport}
use shitty.Http1.ClientSource.Kept.{empty, IsHanded, Reach-IsHanded}

abbrev first : Got
first = in_use new_source 3

got_first : get_transport new_source (ok 3) ≡ ok first
unfolding get_transport
got_first = refl

Reach-IsHanded_example : IsHanded new_source first
Reach-IsHanded_example = Reach-IsHanded (ok 3) first empty (tt, tt) got_first
