-- ===== src/Lib.antt =====
-- The C core of the game server: the skynet runtime on which its services run, with the two
-- additions of this repository, the business log and the table hash.
--
-- The parts and how they interact. A service is a context with a message queue; its handle is given
-- out by the handle table. A message for a handle is looked up in that table and pushed onto the
-- queue of the service; worker threads pop it, watched by a monitor each. The timer pushes a message
-- when a timeout comes due. A handle's high byte, the harbor, says to which node it belongs. A gate
-- collects the bytes of a connection in a receive buffer and cuts packets out of it; a gate written
-- in Lua has the packet splitter for that. The nodes of a cluster send each other requests and
-- responses, large ones in parts.
--
-- Which file models which part:
--   Mq          skynet-dist/skynet-src/skynet_mq.c: `create`, `mq_length`, `take_overload`
--               (skynet_mq_overload), `pop`, `expand_queue`, `enqueue` (the ring part of
--               skynet_mq_push), `drain` (_drop_queue); Mq/Global the global queue:
--               `globalmq_push`, `globalmq_pop`, `mq_push`, `mq_pop`, `mq_mark_release`, `mq_release`,
--               and in Mq/Global/Workers the threads that call them
--   Timer       skynet-dist/skynet-src/skynet_timer.c: `add_node`, `timer_add`, `move_list`,
--               `timer_shift`, `timer_execute` (with dispatch_list), `timer_update`, `updatetime`
--   Handle      skynet-dist/skynet-src/skynet_handle.c: `register`, `retire`, `grab`, `findname`,
--               `namehandle`, under the source's names without the prefix skynet_handle_
--   Harbor      skynet-dist/skynet-src/skynet_harbor.c: which handles are remote; and the sessions of
--               skynet-dist/skynet-src/skynet_server.c
--   HarborService  skynet-dist/service-src/service_harbor.c: Queue its rings, Wire the wire format, Receive
--               `push_socket_data`, Send `remote_send_handle`, Names `update_name` and
--               `remote_send_name`, Service `harbor_command` and `mainloop`
--   Monitor     skynet-dist/skynet-src/skynet_monitor.c
--   DataBuffer  skynet-dist/service-src/databuffer.h: `read`, `push`, `readheader`, `reset`, `clear`
--   NetPack     skynet-dist/lualib-src/lua-netpack.c: `lfilter`, `filter_data` (filter_data_),
--               `push_more`, `push_data`, `expand_queue`, `close_uncomplete`, `lpop`, `lclear`, `lpack`
--   Seri        skynet-dist/lualib-src/lua-seri.c: Blocks the chain of blocks (`wb_push`, `seri`), Pack
--               the packer (`pack_one`, `wb_…`, `luaseri_pack`), Unpack the unpacker (`push_value`,
--               `unpack_one`, `luaseri_unpack`), Format the bytes of a value
--   HashId      skynet-dist/service-src/hashid.h
--   Gate        skynet-dist/service-src/service_gate.c: `dispatch_message` and `forward` over DataBuffer
--   Crypt       skynet-dist/lualib-src/lua-crypt.c: the exchange of keys (`dhexchange`, `dhsecret`,
--               `powmodp`); Crypt/Text the hexadecimal and base64 text
--   Cluster     skynet-dist/lualib-src/lua-cluster.c: Request `lpackrequest` and `lunpackrequest`,
--               Response `lpackresponse` and `lunpackresponse`, `lconcat`; Large and Response/Channel
--               what skynet-dist/service/clusterd.lua and skynet-dist/lualib/socketchannel.lua do with
--               the packets
--   LuaHash     lualib-src/lua-hash.c
--   BusiLogger  service-src/service_busilogger.c
--   Common      lists, arrays and tests that the parts share; Tests has runs on small inputs
--
-- State is passed explicitly: an operation takes the record of a part and returns the new one beside
-- its result. `none` stands for a failed assertion, a fault or a loop that has run out of fuel, and
-- the theorems that say `some` exclude all three. An operation that the code runs under a lock is one
-- step. Arrays are functions of the index or lists, and linked lists are lists. Unsigned 32-bit
-- arithmetic wraps by `%`; an `int` that can be negative is its bit pattern. The capacities of the
-- rings, which double, and the sizes of the hexadecimal and base64 texts are taken to stay below 2^30,
-- where the code does not check either.
--
-- Fuel: the overload loop of skynet_mq_pop has the length plus one, the binary search the number of
-- names plus one, skynet_handle_register two rounds, timer_execute two rounds, timer_shift five
-- rounds, `drain` one more than there are messages, `grow_cap` the number of slots plus one,
-- `mul_loop` and `pow_mod_p` the number of bits, `decode_groups` the length of the text,
-- `dispatch_message` the number of waiting bytes plus one, `receive` the bytes so far and three more,
-- `pop_all` the size of the ring,
-- `push_more` the length of the buffer plus one, `wb_push` the length of the bytes plus one, and
-- `luaseri_unpack` a level of tables for each byte and 33 more. Each is proved to be enough.
--
-- Not modelled: memory allocation, which is taken to succeed; sockets, threads, dynamic loading and
-- files; timers that are added by other threads while timer_execute has let go of its lock; the copies of other projects' libraries (Lua, lpeg, md5, jemalloc, pbc,
-- sproto, lua-cjson, luasocket, termfx); the game services in Lua.
pub mod Common
pub mod Mq
pub mod Timer
pub mod Handle
pub mod Harbor
pub mod HarborService
pub mod Monitor
pub mod DataBuffer
pub mod HashId
pub mod Gate
pub mod Crypt
pub mod NetPack
pub mod Seri
pub mod Cluster
pub mod LuaHash
pub mod BusiLogger
pub mod Tests
