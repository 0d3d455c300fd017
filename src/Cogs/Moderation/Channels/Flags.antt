-- ===== src/Cogs/Moderation/Channels/Flags.antt =====
-- src/cogs/moderation.rs, `set_channel_lock`: flag by flag.
use benny_rs.Base.{◌≡◌, Bool, true, false, Option, arith}
use benny_rs.Cogs.Moderation.Channels.{Permissions, Overwrite, found, set_channel_lock}

-- A lock denies the flags to send and allows none of them, the lock's end denies none of them, and
-- either leaves every other flag as it was.
pub set_channel_lock-flags :
    (Flag : Type 0) (send : Permissions Flag) (o : Option (Overwrite Flag)) (f : Flag) (lock : Bool)
    → ((send f ≡ true)
        → ((set_channel_lock Flag send o true).allow f ≡ false)
          × ((set_channel_lock Flag send o true).deny f ≡ true)
          × ((set_channel_lock Flag send o false).deny f ≡ false))
      × ((send f ≡ false)
          → ((set_channel_lock Flag send o lock).allow f ≡ (found Flag o).allow f)
            × ((set_channel_lock Flag send o lock).deny f ≡ (found Flag o).deny f))
set_channel_lock-flags Flag send o f true = (λ h. ground arith, λ h. ground arith)
set_channel_lock-flags Flag send o f false = (λ h. ground arith, λ h. ground arith)
