-- ===== src/ConcurrencyControl/Memory/Online.antt =====
-- `MakeMeOnline` of src/util/epoch_framework.hpp: a thread joins the epoch that it has published and found
-- unchanged. Its own slot is read by the epoch writer only.
use lineair_db.Base.{ℕ, zero, suc, length, ◌==◌, if◌then◌else◌}
use lineair_db.Types.Outcome.{Outcome, value, out_of_fuel}
use lineair_db.ConcurrencyControl.Memory.{World, tick}

pub record Online : Type 0 where
  pub epoch : ℕ
  pub world : World

unfoldable pub online_loop : ℕ → ℕ → World → Outcome Online
online_loop zero published w = out_of_fuel
online_loop (suc fuel) published w =
    let reloaded = tick (tick w) in
    let again = online_loop fuel reloaded.global_epoch reloaded in
    if reloaded.global_epoch == published
    then value (record { epoch = published; world = reloaded })
    else again

unfoldable pub make_me_online : World → Outcome Online
unfolding online_loop
make_me_online w =
    let loaded = tick w in online_loop (suc (length loaded.others)) loaded.global_epoch loaded
