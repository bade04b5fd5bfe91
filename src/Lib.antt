-- ===== src/Lib.antt =====
-- Verification of esp32_template, the firmware template for the ESP32.
--
-- The device keeps its settings and values in registers. A register is a place in memory that a
-- generated table describes. Modbus requests (main/modbus.c) look registers up
-- (main/regs_description.c) and read or write them (main/regs.c); a write is limited to the
-- register's range, copied to the mirror of saved registers (main/mirror_storage.c), and may be a
-- command. Packets of the network go over a serial line as frames (main/slip_handle.c). Check
-- values (main/crc.c) guard packets, and pools (main/memory_handle.c) hold equal blocks. As a
-- master (main/modbus.c, main/modbus_tcp_client) the device reads and writes the registers of
-- others. Requests in JSON (main/http/json.c) read and write registers over HTTP. A user task
-- (user_tasks/morse.c) turns a key's signals into a message, another one (user_tasks/feeder.c)
-- tells the sleep task (main/sleep_control.c) how long to sleep, and broadcasts over UDP
-- (main/udp_broadcast/udp_broadcast.c) carry messages and let devices find each other.
--
-- Files:
--   Base and below: the native numbers' tests, lists, byte-addressed memory, bits, signed results.
--   Crc: crc.c, and modbus_crc16 and modbus_crc16_check of modbus.c. Crc/Detect: why one changed
--     byte changes a crc. Crc/Frames: check values behind a buffer.
--     Crc/Image: check_crc_for_u32, for an image that holds its length.
--   Pool: memory_handle.c. Pool/Create: os_pool_create and os_pool_delete over an allocator.
--     Pool/Alloc and Pool/Blocks: allocation, lookup and release.
--   Slip: slip_modem_transmit, the send queue and the flow control of slip_handle.c. Slip/Receive:
--     the bytes of slip_handle_uart_rx_task. Slip/Codec: frames are undone. Slip/Queue and
--     Slip/Drain: the order of the frames that wait.
--   Description: the types of regs_description.h and regs.h. Description/Search and
--     Description/Lookup: the lookups of regs_description.c. Description/ByAddress and
--     Description/ByModbus: what they find.
--   Platform: what register access takes from outside, see there.
--   Mirror: mirror_storage.c without its files. Mirror/Check: its crc.
--   Regs: limits and the temporary buffer. Regs/Set: regs_set, regs_set_buffer, regs_get_buffer.
--     Regs/Command: execute_main_command and the defaults. Regs/Access: write access.
--     Regs/Limits: ranges.
--   Modbus: packet checks, exceptions, reply lengths. Modbus/Server: modbus_rtu_packet, one
--     definition for each function code, and modbus_tcp_packet. Modbus/Reply, Modbus/Holding
--     and Modbus/Exchange: requests and replies. Definitions carry the names of the functions.
--     Modbus/Request: modbus_make_packet and modbus_make_tcp_packet. Modbus/Transaction: one
--     request over a socket, of modbus_tcp_client/modbus_tcp_client.c. Modbus/Master: the reading
--     and writing functions of the master; Modbus/Master/Execute: modbus_master_execute_request.
--     Modbus/Request/Accepted, Modbus/Master/Buffer, Modbus/Master/Reading and
--     Modbus/Master/RoundTrip: what they achieve, with the slave at the other end.
--     Modbus/Slaves: the table of slaves of modbus_tcp_client.c. Modbus/Dynamic: the address
--     spaces that are added while the device runs, in blocks of a pool.
--   Morse: user_tasks/morse.c, its tree of codes in Morse/Letters; Morse/Decode: reading a letter;
--     Morse/Message and Morse/Broadcast: the message.
--   Json: http/json.c: a request in the headers of HTTP, its pairs, types and arrays. Json/Strings: the
--     functions of the C library. Json/Output: the answer's buffer; Json/Output/Holds and
--     Json/Output/Bounded: what is in it. Json/Request: what the pairs of a request change, with
--     Json/Request/Steps and Json/Request/Kept. Json/Answer: the answer and get_json_handle, with
--     Json/Answer/Finished. Json/Marks, Json/RoundTrip, Json/Decimal, Json/Numbers and Json/Write and
--     below: requests that are printed and read.
--   Udp: udp_broadcast/udp_broadcast.c: what a packet does. Udp/Answer, Udp/Fields and
--     Udp/Discovery: devices find each other. Udp/Messages: a message from one device to another.
--   Sleep: the loop of sleep_control_task in sleep_control.c, and handle_sleeping of
--     user_tasks/feeder.c. Sleep/Wakes: the pauses; Sleep/Calm: the signals in process.
--   Tests: runs on small inputs.
--
-- Representation: memory is a function from addresses to bytes, NULL is 0, and addresses do not
-- wrap around the end of the address space, but for pools, where uint32_t arithmetic wraps. A
-- buffer is such a function from its first byte on, or a list. `int` results are the numbers of
-- Base/Int. The registers' state is passed on explicitly, and one access runs at a time, as under
-- the code's mutex. A packet does not overlap the registers. Upper halves of operands that the code
-- leaves unset are a parameter of the coil functions. What the calls on a socket return is a
-- parameter too, with the turns of the receiving loop as a list, behind which nothing arrives.
--
-- A string of C is the list of the bytes in front of its NUL; what would leave it has no result.
--
-- Loops are recursion on what is left of a buffer, a list or a count, and need no fuel but for the
-- binary search, which runs on the length of the table: each round leaves fewer entries.
--
-- The loop that reads a Morse letter is recursion on the tree of codes, over times that have been
-- measured: a key that is held for ever, on which time_state waits, is left out.
--
-- The lengths of the functions of crc.c, of modbus_dinamic_addr_check and of the send queue are cut
-- to 16 bits as there.
--
-- A round of the sleep task that sleeps or ends the task has no next round: deep sleep ends in a
-- start of the device.
--
-- Not modelled: tasks, connections, timers and drivers, which call FreeRTOS, lwIP and the ESP-IDF;
-- the HTTP server and client, copies of lwIP's, and their tools; files in flash; the other user
-- tasks; the generator; the synchronisation of time.
pub mod Base
pub mod Crc
pub mod Pool
pub mod Slip
pub mod Description
pub mod Platform
pub mod Json
pub mod Mirror
pub mod Regs
pub mod Modbus
pub mod Morse
pub mod Sleep
pub mod Udp
mod Tests
