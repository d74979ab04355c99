-- ===== src/Network/Disk.antt =====
-- A disk that maps paths to contents, on which every call of the interfaces succeeds.
use network_config_manager.Base.{
  refl, Bool, true, false, [], Bytes, Option, none, some, if◌then◌else◌,
}
use network_config_manager.CLib.{streq, streq_refl}
use network_config_manager.Outcome.{Outcome, ok, err, enoent}
use network_config_manager.ConfFile.{Files}
use network_config_manager.ConfFile.EndToEnd.{FilesLaws, IsWritable}
use network_config_manager.Network.Paths.{System}
use network_config_manager.Network.Created.{SystemLaws, IsReady}

abbrev pub Disk : Type 0
Disk = Bytes → Option Bytes

abbrev is_some : Option Bytes → Bool
is_some none = false
is_some (some c) = true

abbrev pub contents : Option Bytes → Outcome Bytes
contents none = err enoent
contents (some c) = ok c

abbrev pub disk : Files
disk = record {
  State = Disk;
  exists = λ p d. is_some (d p);
  get_contents = λ p d. contents (d p);
  set_contents = λ p c d. (ok tt, λ q. if streq p q then some c else d q);
  getpwnam = λ u d. ok (76, 76);
  chown = λ p u g d. (ok tt, d);
}

abbrev pub system : System disk
system = record {
  creat = λ p d. (ok tt, λ q. if streq p q then some [] else d q);
  network_reload = λ d. (ok tt, d);
}

pub disk-laws : FilesLaws disk
disk-laws = record {
  contents_set = λ p c d e. (rw (streq_refl p), rw (streq_refl p));
  chown_keeps = λ p u g d. (refl, refl);
}

pub system-laws : SystemLaws disk system
system-laws = record {
  creat_empties = λ p d e. (rw (streq_refl p), rw (streq_refl p));
  chown_others = λ p o u g d. (refl, refl);
  reload_keeps = λ p d. (refl, refl);
}

pub disk-IsWritable : (path : Bytes) → IsWritable disk path
disk-IsWritable path = record {
  written = λ c d. refl;
  user = λ d. ((76, 76), refl);
  owned = λ u g d. refl;
}

pub disk-IsReady : (path : Bytes) → IsReady disk system path
disk-IsReady path = record {
  writable = disk-IsWritable path;
  created = λ d. refl;
  directory_owned = λ u g d. refl;
  reloaded = λ d. refl;
}
