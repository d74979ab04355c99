-- ===== src/Lib.antt =====
-- network-config-manager keeps the configuration of networkd in key files: INI-like files of
-- sections, each with its keys in order. The command line, the YAML front end and the bus clients all
-- come down to functions that read such a file, edit it in memory, write it back and hand it to the
-- user of networkd. This library models that layer and the text functions under it.
--
-- The parts, and the files that model them:
--   StringUtil    src/share/string-util.c: the text functions. A `char *` is its list of bytes
--                 without the final NUL; a pointer into a text is a pair of lists. StringUtil/Strip
--                 has the lemmas on what they cut off, StringUtil/Strv the vectors of words, as lists.
--   ParseUtil     src/share/parse-util.c: numbers with their wrap-around, ports and ranges, booleans.
--                 `errno` is the argument `stale`. Its children Numbers and Booleans hold the proofs;
--                 Words has the words and labels that the settings of a link take.
--   KeyFile       the structs of src/share/config-file.h and the edits and lookups in memory of
--                 src/share/config-file.c and src/share/config-parser.c. KeyFile/Text has the text of
--                 a key file, as key_file_save writes it and parse_key_file reads it; KeyFile/Removal
--                 has the loops that remove keys and sections, with the list links that they free, and
--                 Removal/Restart those that go on from the first link.
--                 Put, Lookup, Removal/Keys, Removal/Sections, RoundTrip and Stays hold the proofs,
--                 Printable says which sections they take, and Lines splits their text.
--   ConfFile      the functions of these two files that take a path, with set_file_permisssion of
--                 src/share/file-util.c: read, edit, write, set the owner. ConfFile/EndToEnd
--                 holds the proofs; Ctl has the hash table of names of the command line, Resolv the
--                 functions on resolv.conf and the proxy file.
--   EnumTable     the pairs of functions between numbers and names on a table, of
--                 src/manager/network.c, src/manager/netdev.c, src/manager/network-sriov.c,
--                 src/share/network-util.c, src/nftables/nftables.c and, under
--                 src/lib-network/netlink, network-route.c and network-link.c. One record holds what
--                 a pair names: its bounds and arrays. Tables lists them by the functions there are, Search and
--                 Laws hold the proofs, Faults those on the pairs that name another array.
--   Settings      runs of settings that a function writes one after the other into a key file in memory, by
--                 set_config, set_config_uint, key_file_set_str and key_file_set_uint. Settings/Overlay
--                 says what a reader finds behind them, Settings/Table what a table of keys and fields
--                 says, which is written apart from the settings and compared with them.
--   NetworkUtil   src/share/network-util.c: addresses, links by name or number, tests of names. An address
--                 is the number of its octets; inet_ntop and inet_pton are a parameter, Inet. Address
--                 and Names hold the proofs, Model an instance of Inet.
--   StateFile     parse_state_file of src/share/config-parser.c and the functions of
--                 src/lib-network/networkd/networkd-api.c, whose keys are in StateFile/Keys. Reading holds
--                 the proofs.
--   Network       the Network structure of src/manager/network.h and the .network file that
--                 src/manager/network.c writes for it. Network/Settings has the settings by section,
--                 Network/Sections the sections that are appended (with src/manager/network-sriov.c),
--                 Network/Paths where the file is, Network/Generate generate_network_config. Documented
--                 is the table of what the file says. Says, Appended, Lists, Created, Written and Saved
--                 hold the proofs, Disk is an instance of the files.
--   NetDev        the device structures of src/manager/netdev.h, and the .netdev file that
--                 src/manager/netdev.c writes for one. NetDev/Settings has the settings by the kind of
--                 the device, NetDev/Generate generate_netdev_config, NetDev/Devices the functions of
--                 src/manager/netdev-manager.c that create devices, NetDev/Master
--                 generate_master_device_network of src/manager/network.c. Documented is the table of what
--                 the file says; Says and Saved hold the proofs.
--   Manager       the operations of src/manager/network-manager.c on the .network file of a link. Manager has
--                 what they share, Setters those on one setting, Dynamic and Static those on DHCP and on
--                 fixed addresses, Addresses, Routes and Servers those that append sections, Removal those
--                 that take sections out. Found, Reads and Configured hold the proofs.
--                 Families has manager_set_ipv4 and manager_set_ipv6, AllLinks what is collected of every
--                 link, Ctl the names of the command line for keys. Switches, Modes, Words, Rewritten and
--                 Switched hold the proofs on the modes that Families sets.
--   DeviceLink    the .link file of a device: the structure of src/manager/netdev-link.h and the functions
--                 of src/manager/netdev-link.c. Documented is the table of what the file says; Overlay, Says
--                 and Reads hold the proofs.
--   CLib          what the program calls of the C library, in the C locale: character classes,
--                 comparison, search, and strtol. CLib/Decimal prints numbers.
--   Glib          GLib's strcompress, strstrip and strsplit are a parameter, with their documented
--                 behaviour as laws; Glib/Model is an instance of them, for the examples.
--   Outcome       what a call comes to: a value, a negative error code, or a fault.
--
-- State and errors. A key file is a value that every edit returns changed. A function that returns a
-- negative error code is `err` of its absolute value; a failed assertion, a NULL pointer that is read,
-- a read outside an array and a use of freed memory are `fault`. A freed or NULL value of a key is a
-- constructor of its own. Files are an interface, `Files` of ConfFile, whose state the calls pass on;
-- FilesLaws says that a file holds what was written to it and that an owner changes no contents.
-- `creat` and the reload of networkd over the bus are the record System of Network/Paths, with
-- SystemLaws. Hash tables and sets that the program walks are lists in the order of the walk.
--
-- Bounds. `size_t` counts wrap at 2^64, `uint32_t` and `uint16_t` results at 2^32 and 2^16, and `long`
-- is 64 bits wide. Loops are recursion on the list or the number of rounds that is left: no model
-- runs out of fuel. Section names are cut at LINE_MAX, 2048 bytes, as the parser does it.
--
-- Not modelled: allocations succeed, so -ENOMEM is not returned; log messages are left out, and so is
-- what a second thread or process may do to a file between two calls. Output (JSON, tables, the
-- command line), the bus, netlink and nftables sockets, and the walk of YAML documents are calls of
-- other libraries. The wireless access points of a Network are not modelled
-- either, nor are of src/manager/network-manager.c the servers of every DHCP lease, and the proxy and
-- debug files; manager_remove_netdev removes files by patterns.
mod Base
mod Outcome
mod CLib
mod Glib
mod StringUtil
pub mod KeyFile
pub mod ConfFile
pub mod ParseUtil
pub mod EnumTable
pub mod Settings
pub mod NetworkUtil
pub mod StateFile
pub mod Network
pub mod NetDev
pub mod Manager
pub mod DeviceLink
